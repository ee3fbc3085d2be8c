-- ===== src/Core/Json/Legacy.antt =====
-- Byte fields in the older base64 form (purevm/core/state.go).
use offchain_com.Base.{
  ℕ, ◌+◌, ◌-◌, ◌*◌, ◌/◌, ◌%◌, ◌≤◌, ◌≡◌, ◌≢◌, ◌⊎◌, refl, ap, ◌∙◌, arith, true, false, [], ◌∷◌, some,
  All, length, ◌==◌, Option-cases, inl, inr,
}
use offchain_com.Core.Word.{Bytes}
use offchain_com.Core.Action.{ok}
use offchain_com.Core.Encoding.{
  hex_value, hex_decode, pad_even, has_prefix, base64_value, decode_groups, without_line_ends,
  base64_decode,
}
use offchain_com.Core.Json.{looks_like_hex, decode_byte_text}

abbrev IsHex : ℕ → Type 0
IsHex c = ((b'0' ≤ c) × (c ≤ b'9')) ⊎ (((b'a' ≤ c) × (c ≤ b'f')) ⊎ ((b'A' ≤ c) × (c ≤ b'F')))

hex_value-IsHex : (c v : ℕ) → hex_value c ≡ some v → IsHex c
unfolding hex_value
hex_value-IsHex c v h = ground arith

IsHex-hex_value : (c : ℕ) → IsHex c → (v : ℕ) × (hex_value c ≡ some v)
unfolding hex_value
IsHex-hex_value c (inl h) = (c - b'0', ground arith)
IsHex-hex_value c (inr (inl h)) = (c - b'a' + 10, ground arith)
IsHex-hex_value c (inr (inr h)) = (c - b'A' + 10, ground arith)

IsHex-base64_value : (c : ℕ) → IsHex c → (v : ℕ) × (base64_value c ≡ some v)
unfolding base64_value
IsHex-base64_value c (inl h) = (c - b'0' + 52, ground arith)
IsHex-base64_value c (inr (inl h)) = (c - b'a' + 26, ground arith)
IsHex-base64_value c (inr (inr h)) = (c - b'A', ground arith)

looks_like_hex-All : (t : Bytes) → looks_like_hex t ≡ true → All IsHex t
unfolding looks_like_hex
looks_like_hex-All [] h = tt
looks_like_hex-All (c ∷ t) h = elim (Option-cases (hex_value c)) [
  | inl e ↦ ground arith
  | inr (v, e) ↦ (hex_value-IsHex c v e, looks_like_hex-All t (ground arith))
]

hex_decode_total :
    (t : Bytes)
    → All IsHex t
    → length t % 2 ≡ 0
    → (x : Bytes) × (hex_decode t ≡ some x) × (2 * length x ≡ length t)
unfolding hex_decode
hex_decode_total [] h even = ([], refl, omega arith)
hex_decode_total (c ∷ []) h even = absurd (omega arith)
hex_decode_total (c ∷ (d ∷ t)) h even =
    let (a, ea) = IsHex-hex_value c h.0 in
    let (b, eb) = IsHex-hex_value d h.1.0 in
    let (x, ex, lx) = hex_decode_total t h.1.1 (omega arith) in
    ((a * 16 + b) ∷ x, rw (ea, eb, ex) refl, omega arith)

no_prefix :
    (x : ℕ) (t : Bytes)
    → b'X' ≤ x
    → (x ≡ b'X') ⊎ (x ≡ b'x')
    → All IsHex t
    → has_prefix b'0' x t ≡ false
unfolding has_prefix
no_prefix x [] le e h = refl
no_prefix x (c ∷ []) le e h = refl
no_prefix x (c ∷ (d ∷ t)) le e h = ground arith

without_line_ends_lem : (t : Bytes) → All IsHex t → without_line_ends t ≡ t
unfolding without_line_ends
without_line_ends_lem [] h = refl
without_line_ends_lem (c ∷ t) h = ground (arith, without_line_ends_lem t h.1)

not_padding : (c : ℕ) → IsHex c → (c == b'=') ≡ false
not_padding c h = ground arith

decode_groups_total :
    (t : Bytes)
    → All IsHex t
    → length t % 4 ≡ 0
    → (y : Bytes) × (decode_groups t ≡ some y) × (4 * length y ≡ 3 * length t)
unfolding decode_groups
decode_groups_total [] h whole = ([], refl, omega arith)
decode_groups_total (a ∷ []) h whole = absurd (omega arith)
decode_groups_total (a ∷ (b ∷ [])) h whole = absurd (omega arith)
decode_groups_total (a ∷ (b ∷ (c ∷ []))) h whole = absurd (omega arith)
decode_groups_total (a ∷ (b ∷ (c ∷ (d ∷ t)))) h whole =
    let (va, ea) = IsHex-base64_value a h.0 in
    let (vb, eb) = IsHex-base64_value b h.1.0 in
    let (vc, ec) = IsHex-base64_value c h.1.1.0 in
    let (vd, ed) = IsHex-base64_value d h.1.1.1.0 in
    let (y, ey, ly) = decode_groups_total t h.1.1.1.1 (omega arith) in
    (
      (va * 4 + vb / 16) ∷ ((vb % 16 * 16 + vc / 4) ∷ ((vc % 4 * 64 + vd) ∷ y)),
      rw (not_padding d h.1.1.1.0, ea, eb, ec, ed, ey) refl,
      omega arith,
    )

-- A base64 text of whole groups that consists of digits and the letters up to `f` or `F` is not read
-- as base64: `decodeByteField` takes it for hexadecimal digits, and both readings succeed with
-- different bytes.
pub decode_byte_text_legacy :
    (t : Bytes)
    → looks_like_hex t ≡ true
    → t ≢ []
    → length t % 4 ≡ 0
    → (x : Bytes) × (y : Bytes) × (decode_byte_text t ≡ ok x) × (base64_decode t ≡ some y) × (x ≢ y)
unfolding decode_byte_text base64_decode pad_even
decode_byte_text_legacy [] looks some_text whole = absurd (some_text refl)
decode_byte_text_legacy (c ∷ t) looks some_text whole =
    let h = looks_like_hex-All (c ∷ t) looks in
    let (x, ex, lx) = hex_decode_total (c ∷ t) h (omega arith) in
    let (y, ey, ly) = decode_groups_total (c ∷ t) h whole in
    let small = no_prefix b'x' (c ∷ t) (omega arith) (inr refl) h in
    let large = no_prefix b'X' (c ∷ t) (omega arith) (inl refl) h in
    let even : length (c ∷ t) % 2 == 1 ≡ false = ground arith in
    (
      x,
      y,
      rw (decode_byte_text, small, large, looks, pad_even, even, ex) refl,
      ap decode_groups (without_line_ends_lem (c ∷ t) h) ∙ ey,
      λ e. absurd (omega (arith, ap length e)),
    )
