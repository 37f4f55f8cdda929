-- ===== src/Shared/Pricing/Times.antt =====
-- The order of "HH:mm" texts in packages/shared/src/utils/pricing.ts, and the regular expression of
-- packages/shared/src/schemas/pricing.ts that such texts match.
use marhaba_delivery_v.Prelude.{
  ℕ, ◌+◌, ◌*◌, ◌-◌, ◌/◌, ◌%◌, ◌<◌, ◌≡◌, Bool, true, false, ◌&&◌, ◌||◌, [], ◌∷◌, arith, leb, ◌==◌,
  nat_eq,
}
use marhaba_delivery_v.Shared.Pricing.{Text, hhmm, decimal, pad_start, text_le}

is_between : ℕ → ℕ → ℕ → Bool
is_between lo hi c = leb lo c && leb c hi

-- /^([01]\d|2[0-3]):[0-5]\d$/
unfoldable pub matches_time : Text → Bool
unfolding is_between
matches_time (a ∷ b ∷ c ∷ d ∷ e ∷ []) =
    (((is_between b'0' b'1' a && is_between b'0' b'9' b) || (a == b'2' && is_between b'0' b'3' b))
      && c == b':')
    && (is_between b'0' b'5' d && is_between b'0' b'9' e)
matches_time _ = false

two_digits : (n : ℕ) → n < 100 → pad_start (decimal n) ≡ (b'0' + n / 10) ∷ (b'0' + n % 10) ∷ []
unfolding pad_start decimal
two_digits n h = ground arith

hhmm_digits :
    (h m : ℕ)
    → h < 100
    → m < 100
    → hhmm h m ≡ (b'0' + h / 10) ∷ (b'0' + h % 10) ∷ b':' ∷ (b'0' + m / 10) ∷ (b'0' + m % 10) ∷ []
unfolding hhmm
hhmm_digits h m hb mb = rw (two_digits h hb, two_digits m mb)

-- The text of a time of day is before another exactly when the time is.
pub text_le-hhmm :
    (h m h' m' : ℕ)
    → h < 24
    → m < 60
    → h' < 24
    → m' < 60
    → text_le (hhmm h m) (hhmm h' m') ≡ leb (h * 60 + m) (h' * 60 + m')
unfolding text_le
text_le-hhmm h m h' m' a b c d =
    rw (hhmm_digits h m (omega arith) (omega arith), hhmm_digits h' m' (omega arith) (omega arith))
      (ground arith)

-- A text that the schema accepts is the text of a time of day.
pub matches_time_sound :
    (s : Text) → matches_time s ≡ true → (h : ℕ) × (m : ℕ) × (h < 24) × (m < 60) × (s ≡ hhmm h m)
unfolding matches_time
matches_time_sound (a ∷ b ∷ c ∷ d ∷ e ∷ []) p =
    let h = (a - b'0') * 10 + (b - b'0') in
    let m = (d - b'0') * 10 + (e - b'0') in
    let in_day : h < 24 = ground arith in
    let in_hour : m < 60 = ground arith in
    (h, m, in_day, in_hour, rw (hhmm_digits h m (omega arith) (omega arith)) (ground arith))
matches_time_sound _ p = cc

pub matches_time-hhmm : (h m : ℕ) → h < 24 → m < 60 → matches_time (hhmm h m) ≡ true
unfolding matches_time
matches_time-hhmm h m a b = rw (hhmm_digits h m (omega arith) (omega arith)) (ground arith)
