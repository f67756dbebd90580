-- ===== src/Plan/Hash.antt =====
-- hash.rs: the hash of a service. serde_json, ijson_jcs and sha2 are parameters: a digest is its bytes.
use Prim.Native.Nat.{◌/◌, ◌%◌}
use burble.Base.{
  ℕ, ◌+◌, ◌-◌, ◌*◌, ◌<◌, ◌≤◌, List, [], ◌∷◌, All, Str, Result, ok, err, ltb, length, if◌then◌else◌,
  ◌≡◌, refl, ap, arith, ◌⊎◌, inl, inr, Bool-cases,
}
use burble.Schema.{Service}

abbrev pub hex_digit : ℕ → ℕ
hex_digit n = if ltb n 10 then 48 + n else 87 + n

-- `{b:02x}` of each byte.
unfoldable pub hex : List ℕ → Str
hex [] = []
hex (b ∷ bytes) = hex_digit (b / 16) ∷ hex_digit (b % 16) ∷ hex bytes

module _ {Value JcsError : Type 0} (to_value : Service → Value)
    (to_jcs : Value → Result JcsError (List ℕ)) (sha256 : List ℕ → List ℕ) where
  unfoldable pub service_hash : Service → Result JcsError Str
  unfolding hex
  service_hash svc = elim (to_jcs (to_value svc)) [
    | err e ↦ err e
    | ok canonical ↦ ok (hex (sha256 canonical))
  ]

-- A lower-case hexadecimal digit, and its value.
abbrev pub IsHexDigit : ℕ → Type 0
IsHexDigit c = ((48 ≤ c) × (c ≤ 57)) ⊎ ((97 ≤ c) × (c ≤ 102))

abbrev pub digit_value : ℕ → ℕ
digit_value c = if ltb c 58 then c - 48 else c - 87

unfoldable pub unhex : Str → List ℕ
unhex (c ∷ d ∷ text) = (digit_value c * 16 + digit_value d) ∷ unhex text
unhex _ = []

abbrev IsByte : ℕ → Type 0
IsByte b = b < 256

digit_value-hex_digit : (n : ℕ) → n < 16 → digit_value (hex_digit n) ≡ n
digit_value-hex_digit n h = ground (arith, h)

byte_of : (b : ℕ) → b / 16 * 16 + b % 16 ≡ b
byte_of b = omega arith

unhex-hex : (bytes : List ℕ) → All IsByte bytes → unhex (hex bytes) ≡ bytes
unfolding unhex hex
unhex-hex [] h = refl
unhex-hex (b ∷ bytes) (h, hs) =
    rw
      (
        digit_value-hex_digit (b / 16) (omega (arith, h)),
        digit_value-hex_digit (b % 16) (omega arith),
        unhex-hex bytes hs,
      )
      (ap (λ c. c ∷ bytes) (byte_of b))

length-hex : (bytes : List ℕ) → length (hex bytes) ≡ 2 * length bytes
unfolding hex
length-hex [] = refl
length-hex (b ∷ bytes) = omega (arith, length-hex bytes)

hex_digit-IsHexDigit : (n : ℕ) → n < 16 → IsHexDigit (hex_digit n)
hex_digit-IsHexDigit n h = elim (Bool-cases (ltb n 10)) [
  | inl small ↦ inl (ground (arith, small), ground (arith, small))
  | inr large ↦ inr (ground (arith, large), ground (arith, large, h))
]

hex-IsHexDigit : (bytes : List ℕ) → All IsByte bytes → All IsHexDigit (hex bytes)
unfolding hex
hex-IsHexDigit [] h = tt
hex-IsHexDigit (b ∷ bytes) (h, hs) = (
  hex_digit-IsHexDigit (b / 16) (omega (arith, h)),
  (hex_digit-IsHexDigit (b % 16) (omega arith), hex-IsHexDigit bytes hs),
)

module _ {Value JcsError : Type 0} (to_value : Service → Value)
    (to_jcs : Value → Result JcsError (List ℕ)) (sha256 : List ℕ → List ℕ) where
  -- A SHA-256 digest is 32 bytes.
  abbrev pub IsSha256 : Type 0
  IsSha256 = (bytes : List ℕ) → (length (sha256 bytes) ≡ 32) × All IsByte (sha256 bytes)

  abbrev pub HashOutcome : Service → Result JcsError Str → Type 0
  HashOutcome svc (err e) = to_jcs (to_value svc) ≡ err e
  HashOutcome svc (ok text) =
      (canonical : List ℕ) × (to_jcs (to_value svc) ≡ ok canonical)
      × (length text ≡ 64)
      × All IsHexDigit text
      × (unhex text ≡ sha256 canonical)

  -- If a digest is 32 bytes, the hash of a service is 64 lower-case hexadecimal digits, which give back the
  -- digest of the service's canonical bytes; it fails only where these cannot be made.
  pub service_hash-Outcome :
      IsSha256 → (svc : Service) → HashOutcome svc (service_hash to_value to_jcs sha256 svc)
  unfolding service_hash
  service_hash-Outcome digest svc = go (to_jcs (to_value svc)) refl
    where
      go :
          (r : Result JcsError (List ℕ))
          → to_jcs (to_value svc) ≡ r
          → HashOutcome svc (elim r [ err e ↦ err e | ok canonical ↦ ok (hex (sha256 canonical)) ])
      go (err e) is = is
      go (ok canonical) is =
          let (long, bytes) = digest canonical in
          (
            canonical,
            is,
            omega (arith, length-hex (sha256 canonical), long),
            hex-IsHexDigit (sha256 canonical) bytes,
            unhex-hex (sha256 canonical) bytes,
          )
