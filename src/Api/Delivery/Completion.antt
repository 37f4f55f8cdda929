-- ===== src/Api/Delivery/Completion.antt =====
-- packages/api/src/modules/delivery/delivery.service.ts: one-time codes and the proof of delivery. The code is a
-- key of Redis with a time to live; the public URL of an upload is that of
-- packages/api/src/modules/storage/storage.service.ts.
use Prim.Native.String.{◌++◌ as append}
use marhaba_delivery_v.Prelude.{
  ℕ, ◌+◌, ◌*◌, String, Bool, true, false, not, ◌&&◌, [], ◌∷◌, Option, none, some, ◌==◌, string_eq,
  is_truthy, ltb, if◌then◌else◌,
}
use marhaba_delivery_v.Prelude.Rows.{find_first, find_many}
use marhaba_delivery_v.Prelude.Action.{
  Action, bad_request, not_found, pure, throw_unless, or_throw, find, gets, modify, upsert, ◌>>=◌,
  ◌>>◌,
}
use marhaba_delivery_v.Shared.Enums.{OrderStatus, ProofOfDeliveryType}
use marhaba_delivery_v.Shared.Enums.Equality.{order_status_eq}
use marhaba_delivery_v.Api.World.{
  World, Coordinate, ProofOfDelivery, OneTimeCode, text, order_table, proof_table, with_id,
}
use marhaba_delivery_v.Api.Orders.{TransitionOrderInput, transition}
use marhaba_delivery_v.Api.Delivery.{driver_actor, proof_type_name}

abbrev pub otp_ttl : ℕ
otp_ttl = 900

abbrev pub other_code : String → OneTimeCode → Bool
other_code order_id c = not (c.order_id == order_id)

-- `redis.del(key)`, and `redis.set(key, code, ttl)`, which replaces the value.
abbrev pub drop_code : String → World → World
drop_code order_id w = record w { codes = find_many (other_code order_id) w.codes }

abbrev pub live_code : String → ℕ → OneTimeCode → Bool
live_code order_id now c = c.order_id == order_id && ltb now c.expires_at

abbrev pub code_of : Option OneTimeCode → Option String
code_of none = none
code_of (some c) = some c.code

-- `redis.get(key)`: a key whose time is over is gone.
abbrev pub get_code : String → World → Option String
get_code order_id w = code_of (find_first (live_code order_id w.now) w.codes)

-- The random code, six digits, is an argument. The answer is the time to live in seconds.
unfoldable pub issue_otp : String → String → Action World ℕ
issue_otp order_id code = do
  modify (λ w. record w {
    codes =
        record { order_id = order_id; code = code; expires_at = w.now + otp_ttl * 1000 }
        ∷ find_many (other_code order_id) w.codes;
  })
  pure otp_ttl

pub record SubmitProofInput : Type 0 where
  pub type : ProofOfDeliveryType
  pub photo_key : String
  pub signature_key : String
  pub otp_code : Option String
  pub lng : Coordinate
  pub lat : Coordinate
  pub captured_at : ℕ

-- What a proof consists of: otpVerified, photoUrl, signatureUrl.
pub record Evidence : Type 0 where
  pub otp_verified : Option Bool
  pub photo_url : Option String
  pub signature_url : Option String

abbrev pub same_code : Option String → Option String → Bool
same_code (some a) (some b) = a == b
same_code _ _ = false

-- `!!expected && expected === input.otpCode`.
abbrev pub otp_matches : Option String → Option String → Bool
otp_matches expected given = is_truthy expected && same_code expected given

-- publicUrlFor: the base URL, if there is one, without its last slash, is given.
abbrev pub public_url_for : Option String → String → String
public_url_for none key = append "/" key
public_url_for (some base) key =
    if is_truthy (some base) then append base (append "/" key) else append "/" key

abbrev pub proof_row : String → SubmitProofInput → Evidence → ProofOfDelivery
proof_row order_id input evidence = record {
  order_id = order_id;
  type = input.type;
  photo_url = evidence.photo_url;
  signature_url = evidence.signature_url;
  otp_verified = evidence.otp_verified;
  lng = input.lng;
  lat = input.lat;
  captured_at = input.captured_at;
}

-- The update of an existing proof keeps its time of capture.
abbrev pub rewrite_proof : SubmitProofInput → Evidence → ProofOfDelivery → ProofOfDelivery
rewrite_proof input evidence p = record p {
  type = input.type;
  photo_url = evidence.photo_url;
  signature_url = evidence.signature_url;
  otp_verified = evidence.otp_verified;
  lng = input.lng;
  lat = input.lat;
}

abbrev pub proof_of_order : String → ProofOfDelivery → Bool
proof_of_order order_id p = p.order_id == order_id

abbrev pub delivered_input : ProofOfDeliveryType → TransitionOrderInput
delivered_input type = record {
  to = OrderStatus.delivered;
  reason = none;
  metadata = some (("proofType", text (proof_type_name type)) ∷ []);
}

abbrev pub deliver : String → String → SubmitProofInput → Evidence → Action World ProofOfDelivery
deliver order_id driver_user_id input evidence = do
  proof ←
      upsert proof_table (proof_of_order order_id) (proof_row order_id input evidence)
        (rewrite_proof input evidence)
  transition order_id (delivered_input input.type) (driver_actor driver_user_id)
  pure proof

module _ (public_url : Option String) where
  abbrev pub gather : ProofOfDeliveryType → String → SubmitProofInput → Action World Evidence
  gather ProofOfDeliveryType.otp_code order_id input = do
    expected ← gets (get_code order_id)
    throw_unless (otp_matches expected input.otp_code) (bad_request "Invalid or expired OTP")
    modify (drop_code order_id)
    pure (record { otp_verified = some true; photo_url = none; signature_url = none })
  gather ProofOfDeliveryType.photo order_id input = pure (record {
    otp_verified = none;
    photo_url = some (public_url_for public_url input.photo_key);
    signature_url = none;
  })
  gather ProofOfDeliveryType.signature order_id input = pure (record {
    otp_verified = none;
    photo_url = none;
    signature_url = some (public_url_for public_url input.signature_key);
  })

  unfoldable pub submit_proof : String → String → SubmitProofInput → Action World ProofOfDelivery
  submit_proof order_id driver_user_id input = do
    row ← find order_table (with_id order_id)
    order ← or_throw row (not_found "Order not found")
    throw_unless (order.status == OrderStatus.out_for_delivery)
        (bad_request "Order must be out for delivery to complete")
    evidence ← gather input.type order_id input
    deliver order_id driver_user_id input evidence
