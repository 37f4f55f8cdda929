-- ===== src/Api/Delivery/Proof.antt =====
-- DeliveryService.issueOtp and submitProof (packages/api/src/modules/delivery/delivery.service.ts):
-- what a proof of delivery takes, and that a one-time code serves once.
use marhaba_delivery_v.Prelude.{
  ℕ, ◌+◌, ◌*◌, ◌<◌, ◌≤◌, String, ◌≡◌, refl, true, false, List, [], ◌∷◌, ◌++◌, Option, none, some,
  ◌==◌, arith, Option-cases, inl, inr, string_eq, eq_iff, Bool-cases,
}
use marhaba_delivery_v.Prelude.Rows.{find_first, find_many, update_many}
use marhaba_delivery_v.Prelude.Action.{
  Action, ◌>>=◌, ◌>>◌, pure, Exception, Outcome, ok, throws, bad_request, bind-ok,
}
use marhaba_delivery_v.Shared.Enums.{OrderStatus, ProofOfDeliveryType}
use marhaba_delivery_v.Shared.Enums.Equality.{order_status_eq}
use marhaba_delivery_v.Api.World.{World, Order, OneTimeCode, ProofOfDelivery, with_id}
use marhaba_delivery_v.Api.Orders.{transition}
use marhaba_delivery_v.Api.Delivery.{driver_actor}
use marhaba_delivery_v.Api.Delivery.Completion.{
  SubmitProofInput, submit_proof, issue_otp, otp_ttl, get_code, drop_code, otp_matches, live_code,
  other_code, proof_row, rewrite_proof, proof_of_order, delivered_input, Evidence, gather, deliver,
}

ok≢throws : {A : Type 0} {a : A} {e : Exception} → throws e ≡ ok a → ⊥
ok≢throws h = cc

dropped :
    (order_id : String) (now : ℕ) (codes : List OneTimeCode)
    → find_first (live_code order_id now) (find_many (other_code order_id) codes) ≡ none
unfolding find_first find_many
dropped order_id now [] = refl
dropped order_id now (c ∷ codes) = ground (arith, dropped order_id now codes)

-- A code that was issued is the one that is asked for, until its time is over.
pub issue_otp-get_code :
    (order_id code : String) (w : World) (t : ℕ)
    → t < w.now + otp_ttl * 1000
    → get_code order_id (record (issue_otp order_id code w).1 { now = t }) ≡ some code
unfolding issue_otp find_first
issue_otp-get_code order_id code w t soon = ground (arith, eq_iff order_id order_id)

-- After that, and at once after it was used, there is no code.
pub issue_otp_expires :
    (order_id code : String) (w : World) (t : ℕ)
    → w.now + otp_ttl * 1000 ≤ t
    → get_code order_id (record (issue_otp order_id code w).1 { now = t }) ≡ none
unfolding issue_otp find_first
issue_otp_expires order_id code w t late = ground (arith, dropped order_id t w.codes)

module _ (public_url : Option String) (order_id driver : String) (input : SubmitProofInput)
    (w : World) where
  -- What was checked of the code, by the type of the proof, and which code is left.
  abbrev pub Checked : ProofOfDeliveryType → ProofOfDelivery → World → Type 0
  Checked ProofOfDeliveryType.otp_code p w' =
      (otp_matches (get_code order_id w) input.otp_code ≡ true)
      × (get_code order_id w' ≡ none)
      × (p.otp_verified ≡ some true)
  Checked _ p w' = (w'.codes ≡ w.codes) × (p.otp_verified ≡ none)

  abbrev transition_and_answer : ProofOfDelivery → Action World ProofOfDelivery
  transition_and_answer p' = do
    transition order_id (delivered_input input.type) (driver_actor driver)
    pure p'

  -- What the last steps, from the proof on, leave alone.
  abbrev Delivered : ProofOfDelivery → World → Outcome ProofOfDelivery × World → Type 0
  Delivered p w₁ (r, w') =
      (w'.orders
        ≡ update_many (with_id order_id) (λ x. record x { status = OrderStatus.delivered })
            w₁.orders)
      × (w'.drivers ≡ w₁.drivers)
      × (w'.codes ≡ w₁.codes)
      × (w'.now ≡ w₁.now)

  transition_and_answer_ok :
      (p p' : ProofOfDelivery) (w₁ : World)
      → (transition_and_answer p' w₁).0 ≡ ok p
      → (p ≡ p') × Delivered p w₁ (transition_and_answer p' w₁)
  unfolding transition
  transition_and_answer_ok p p' w₁ h =
      (ground arith, (ground arith, ground arith, ground arith, ground arith))

  deliver_ok :
      (p : ProofOfDelivery) (e : Evidence) (w₁ : World)
      → (deliver order_id driver input e w₁).0 ≡ ok p
      → (p.otp_verified ≡ e.otp_verified) × Delivered p w₁ (deliver order_id driver input e w₁)
  deliver_ok p e w₁ h = elim (Option-cases (find_first (proof_of_order order_id) w₁.proofs)) [
    | inl fresh ↦
        let row = proof_row order_id input e in
        let w₂ = record w₁ { proofs = w₁.proofs ++ row ∷ [] } in
        let (same, after) = transition_and_answer_ok p row w₂ (rw fresh at h) in
        rw fresh (rw same refl, after)
    | inr (q, there) ↦
        let w₂ = record w₁ {
          proofs = update_many (proof_of_order order_id) (rewrite_proof input e) w₁.proofs;
        } in
        let (same, after) =
          transition_and_answer_ok p (rewrite_proof input e q) w₂ (rw there at h) in
        rw there (rw same refl, after)
  ]

  -- What the evidence shows, and the world after it was gathered.
  abbrev Gathered : ProofOfDeliveryType → Evidence → World → Type 0
  Gathered ProofOfDeliveryType.otp_code e w₁ =
      (otp_matches (get_code order_id w) input.otp_code ≡ true)
      × (e.otp_verified ≡ some true)
      × (w₁ ≡ drop_code order_id w)
  Gathered _ e w₁ = (e.otp_verified ≡ none) × (w₁ ≡ w)

  gather-Gathered :
      (type : ProofOfDeliveryType) (e : Evidence)
      → (gather public_url type order_id input w).0 ≡ ok e
      → Gathered type e (gather public_url type order_id input w).1
  gather-Gathered ProofOfDeliveryType.otp_code e h = (ground arith, ground arith, ground arith)
  gather-Gathered ProofOfDeliveryType.photo e h = (ground arith, refl)
  gather-Gathered ProofOfDeliveryType.signature e h = (ground arith, refl)

  Gathered-rows :
      (type : ProofOfDeliveryType) (e : Evidence) (w₁ : World)
      → Gathered type e w₁
      → (w₁.orders ≡ w.orders) × (w₁.drivers ≡ w.drivers)
  Gathered-rows ProofOfDeliveryType.otp_code e w₁ g = rw g.2 (refl, refl)
  Gathered-rows ProofOfDeliveryType.photo e w₁ g = rw g.1 (refl, refl)
  Gathered-rows ProofOfDeliveryType.signature e w₁ g = rw g.1 (refl, refl)

  Gathered-Checked :
      (type : ProofOfDeliveryType) (e : Evidence) (p : ProofOfDelivery) (w₁ w' : World)
      → Gathered type e w₁
      → p.otp_verified ≡ e.otp_verified
      → w'.codes ≡ w₁.codes
      → w'.now ≡ w₁.now
      → Checked type p w'
  Gathered-Checked ProofOfDeliveryType.otp_code e p w₁ w' g same codes now =
      (g.0, rw (codes, now, g.2, dropped order_id w.now w.codes) refl, rw (same, g.1) refl)
  Gathered-Checked ProofOfDeliveryType.photo e p w₁ w' g same codes now =
      (rw (codes, g.1) refl, rw (same, g.0) refl)
  Gathered-Checked ProofOfDeliveryType.signature e p w₁ w' g same codes now =
      (rw (codes, g.1) refl, rw (same, g.0) refl)

  submitted :
      (o : Order) (p : ProofOfDelivery)
      → find_first (with_id order_id) w.orders ≡ some o
      → (submit_proof public_url order_id driver input w).0 ≡ ok p
      → (o.status ≡ OrderStatus.out_for_delivery)
        × (submit_proof public_url order_id driver input w
            ≡ (gather public_url input.type order_id input >>= deliver order_id driver input) w)
  unfolding submit_proof
  submitted o p found h = elim (Bool-cases (o.status == OrderStatus.out_for_delivery)) [
    | inl out ↦ (ground (arith, out), rw (found, out) refl)
    | inr other ↦ absurd (ok≢throws (rw (found, other) at h))
  ]

  -- A proof is accepted only of an order that is out for delivery, which is then DELIVERED; a code
  -- must be the live one of the order, and is used up. The rows of the drivers stay as they are: the
  -- driver of the order keeps it as the active one.
  pub submit_proof_ok :
      (o : Order) (p : ProofOfDelivery)
      → find_first (with_id order_id) w.orders ≡ some o
      → (submit_proof public_url order_id driver input w).0 ≡ ok p
      → let w' = (submit_proof public_url order_id driver input w).1 in
        (o.status ≡ OrderStatus.out_for_delivery)
        × (w'.orders
            ≡ update_many
                (with_id order_id)
                (λ x. record x { status = OrderStatus.delivered })
                w.orders)
        × (w'.drivers ≡ w.drivers)
        × Checked input.type p w'
  submit_proof_ok o p found h =
      let (out, run) = submitted o p found h in
      let (e, gathered, rest) =
        bind-ok (gather public_url input.type order_id input) (deliver order_id driver input) w p
          (rw run at h) in
      let w₁ = (gather public_url input.type order_id input w).1 in
      let g = gather-Gathered input.type e gathered in
      let rows = Gathered-rows input.type e w₁ g in
      let (same, (orders, drivers, codes, now)) = deliver_ok p e w₁ (rw (run, rest) at h) in
      rw (run, rest)
        (
          out,
          rw rows.0 at orders,
          rw rows.1 at drivers,
          Gathered-Checked input.type e p w₁ _ g same codes now,
        )

  -- A code that does not match the live one is refused, and nothing changes: the code stays.
  pub submit_proof_wrong_code :
      (o : Order)
      → find_first (with_id order_id) w.orders ≡ some o
      → o.status ≡ OrderStatus.out_for_delivery
      → input.type ≡ ProofOfDeliveryType.otp_code
      → otp_matches (get_code order_id w) input.otp_code ≡ false
      → submit_proof public_url order_id driver input w
        ≡ (throws (bad_request "Invalid or expired OTP"), w)
  unfolding submit_proof
  submit_proof_wrong_code o found out otp wrong = ground arith
