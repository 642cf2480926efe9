-- ===== src/Thread/Mention/Components.antt =====
-- mention.rs: the escapes of a path are decoded component by component.
use mathlib.Core.Path.{subst}
use mjx_acp_agent.Thread.Mention.Escapes.{
  decode_path_escapes, decode_bytes, is_separator, escaped, hex_digit,
}
use mjx_acp_agent.Prelude.{
  ◌⊎◌, ◌≢◌, ◌≢◌, ◌⊎◌, sym, ap, none, map, true, Option-cases, Bool-cases, arith, ◌≡◌, ◌≡◌, List, ℕ,
  if◌then◌else◌, false, [], ◌∷◌, some, refl, inl, inr,
}
use mjx_acp_agent.Prelude.Text.{is_utf8, contains, text_beq, Text}

-- A text cut at its separators, each component with the separator behind it, and what is left.
abbrev pub cons_first : ℕ → List Text → List Text
cons_first c [] = (c ∷ []) ∷ []
cons_first c (s ∷ ss) = (c ∷ s) ∷ ss

unfoldable pub components : Text → List Text
components [] = [] ∷ []
components (c ∷ s) =
    let rest = components s in if is_separator c then [] ∷ rest else cons_first c rest

unfoldable pub separators : Text → Text
separators [] = []
separators (c ∷ s) = let rest = separators s in if is_separator c then c ∷ rest else rest

components-begin : (s : Text) → (t : Text) × (ts : List Text) × (components s ≡ t ∷ ts)
unfolding components
components-begin [] = ([], [], refl)
components-begin (c ∷ s) = elim (Bool-cases (is_separator c)) [
  | inl sep ↦ ([], components s, rw sep)
  | inr part ↦ let (t, ts, e) = components-begin s in (c ∷ t, ts, rw (part, e))
]

hex_digit-separator : (c d : ℕ) → hex_digit c ≡ some d → is_separator c ≡ false
unfolding hex_digit
hex_digit-separator c d h = ground arith

-- What is decoded stands for three bytes of which none is a separator, and is none itself.
escaped-separator :
    (x h l byte : ℕ)
    → escaped x h l ≡ some byte
    → (is_separator x ≡ false)
      × (is_separator h ≡ false)
      × (is_separator l ≡ false)
      × (is_separator byte ≡ false)
unfolding escaped
escaped-separator x h l byte e = elim (Option-cases (hex_digit h)) [
  | inl none_h ↦ ground (arith, none_h)
  | inr (high, some_h) ↦ elim (Option-cases (hex_digit l)) [
    | inl none_l ↦ ground (arith, some_h, none_l)
    | inr (low, some_l) ↦
        ground (
          arith,
          some_h,
          some_l,
          hex_digit-separator h high some_h,
          hex_digit-separator l low some_l,
        )
  ]
]

components-part :
    (c : ℕ) (s : Text) → is_separator c ≡ false → components (c ∷ s) ≡ cons_first c (components s)
unfolding components
components-part c s part = rw part

components-separator :
    (c : ℕ) (s : Text) → is_separator c ≡ true → components (c ∷ s) ≡ [] ∷ components s
unfolding components
components-separator c s sep = rw sep

decode_bytes-hit :
    (x h l byte : ℕ) (s : Text)
    → escaped x h l ≡ some byte
    → decode_bytes (x ∷ h ∷ l ∷ s) ≡ byte ∷ decode_bytes s
unfolding decode_bytes
decode_bytes-hit x h l byte s e = rw (e, decode_bytes)

decode_bytes-miss :
    (x h l : ℕ) (s : Text)
    → escaped x h l ≡ none
    → decode_bytes (x ∷ h ∷ l ∷ s) ≡ x ∷ decode_bytes (h ∷ l ∷ s)
unfolding decode_bytes
decode_bytes-miss x h l s e = rw (e, decode_bytes)

-- Where no escape begins, the first byte of a component is kept.
first_kept :
    (x h l : ℕ) (s : Text)
    → escaped x h l ≡ none
    → map decode_bytes (cons_first x (components (h ∷ l ∷ s)))
      ≡ cons_first x (map decode_bytes (components (h ∷ l ∷ s)))
unfolding components decode_bytes
first_kept x h l s e =
    let (t, ts, begins) = components-begin s in
    elim (Bool-cases (is_separator h)) [
      | inl sep ↦ rw sep
      | inr part ↦ elim (Bool-cases (is_separator l)) [
        | inl sep ↦ rw (part, sep)
        | inr part_l ↦ rw (part, part_l, begins, decode_bytes-miss x h l t e)
      ]
    ]

decode_bytes-nil : [] ≡ decode_bytes []
unfolding decode_bytes
decode_bytes-nil = refl

nil_case : components [] ≡ map decode_bytes (components [])
unfolding components decode_bytes
nil_case = refl

hit_case :
    (x h l byte : ℕ) (s : Text)
    → escaped x h l ≡ some byte
    → components (decode_bytes s) ≡ map decode_bytes (components s)
    → components (byte ∷ decode_bytes s) ≡ map decode_bytes (components (x ∷ h ∷ l ∷ s))
hit_case x h l byte s e ih =
    let (part_x, part_h, part_l, part_byte) = escaped-separator x h l byte e in
    let (t, ts, begins) = components-begin s in
    rw (
      components-part byte (decode_bytes s) part_byte,
      ih,
      components-part x (h ∷ l ∷ s) part_x,
      components-part h (l ∷ s) part_h,
      components-part l s part_l,
      begins,
      decode_bytes-hit x h l byte t e,
    )

miss_case :
    (x h l : ℕ) (s : Text)
    → escaped x h l ≡ none
    → components (decode_bytes (h ∷ l ∷ s)) ≡ map decode_bytes (components (h ∷ l ∷ s))
    → components (x ∷ decode_bytes (h ∷ l ∷ s)) ≡ map decode_bytes (components (x ∷ h ∷ l ∷ s))
miss_case x h l s e ih = elim (Bool-cases (is_separator x)) [
  | inl sep ↦
      rw
        (
          components-separator x (decode_bytes (h ∷ l ∷ s)) sep,
          ih,
          components-separator x (h ∷ l ∷ s) sep,
        )
        (ap (λ first. first ∷ map decode_bytes (components (h ∷ l ∷ s))) decode_bytes-nil)
  | inr part ↦
      rw (components-part x (decode_bytes (h ∷ l ∷ s)) part, ih, components-part x (h ∷ l ∷ s) part)
        (sym (first_kept x h l s e))
]

short_case : (x h : ℕ) → components (x ∷ h ∷ []) ≡ map decode_bytes (components (x ∷ h ∷ []))
unfolding components decode_bytes
short_case x h = ground arith

single_case : (x : ℕ) → components (x ∷ []) ≡ map decode_bytes (components (x ∷ []))
unfolding components decode_bytes
single_case x = ground arith

-- Decoding goes component by component.
pub components-decode_bytes :
    (s : Text) → components (decode_bytes s) ≡ map decode_bytes (components s)
unfolding decode_bytes
components-decode_bytes [] = nil_case
components-decode_bytes (x ∷ []) = single_case x
components-decode_bytes (x ∷ h ∷ []) = short_case x h
components-decode_bytes (x ∷ h ∷ l ∷ s) = elim (Option-cases (escaped x h l)) [
  | inl e ↦
      rw (decode_bytes-miss x h l s e) (miss_case x h l s e (components-decode_bytes (h ∷ l ∷ s)))
  | inr (byte, e) ↦
      rw (decode_bytes-hit x h l byte s e) (hit_case x h l byte s e (components-decode_bytes s))
]

text_beq_refl : (s : Text) → text_beq s s ≡ true
text_beq_refl [] = refl
text_beq_refl (c ∷ s) = ground (arith, text_beq_refl s)

text_beq-ne : (s t : Text) → text_beq s t ≡ false → s ≢ t
text_beq-ne s t h e = let same = subst (λ u. text_beq s u ≡ true) e (text_beq_refl s) in cc

decode_path_escapes-cases :
    (input : Text)
    → (decode_path_escapes input ≡ (input, false))
      ⊎ ((decode_path_escapes input ≡ (decode_bytes input, true))
          × (text_beq (decode_bytes input) input ≡ false))
unfolding decode_path_escapes
decode_path_escapes-cases input = elim (Bool-cases (contains b'%' input)) [
  | inr no_escape ↦ inl (rw no_escape)
  | inl escape ↦ elim (Bool-cases (text_beq (decode_bytes input) input)) [
    | inl same ↦ inl (rw (escape, same))
    | inr changed ↦ elim (Bool-cases (is_utf8 (decode_bytes input))) [
      | inr invalid ↦ inl (rw (escape, changed, invalid))
      | inl valid ↦ inr (rw (escape, changed, valid), changed)
    ]
  ]
]

-- A decoded path differs from the input, and has the input's components, each decoded, with none added or removed; a
-- borrowed one is the input. What a component is decoded to may be `..`.
pub decode_path_escapes-components :
    (input : Text)
    → (decode_path_escapes input ≡ (input, false))
      ⊎ (((decode_path_escapes input).1 ≡ true)
          × ((decode_path_escapes input).0 ≢ input)
          × (components (decode_path_escapes input).0 ≡ map decode_bytes (components input)))
decode_path_escapes-components input = elim (decode_path_escapes-cases input) [
  | inl borrowed ↦ inl borrowed
  | inr (owned, changed) ↦ inr (
    rw owned,
    subst (λ r. r.0 ≢ input) (sym owned) (text_beq-ne _ _ changed),
    rw owned (components-decode_bytes input),
  )
]
