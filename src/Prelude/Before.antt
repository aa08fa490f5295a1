-- ===== src/Prelude/Before.antt =====
-- The text before a separator, and what strings.Index followed by a slice gives of it.
use Prim.Native.Nat.{Ordering, compare as compare_ℕ}
use Prim.Native.Char.{Char, code, len_utf8}
use Prim.Native.Nat.compare
use Prim.Native.String.append
use Prim.Native.String.find
use Prim.Native.String.len
use Prim.Native.String.{
  [] as empty_text, ◌∷◌ as text_cons, ◌++◌ as text_append, len, slice, find, same, begins,
}
use native.Mathlib.Nat.{add-suc}
use text.Mathlib.Text.{is_le}
use text.Mathlib.TextEquality.{starts_with_iff, eq_iff}
use text.Mathlib.TextLemmas.{cons-ne-nil}
use text.Mathlib.TextFind.{begins_cases}
use text.Mathlib.TextPositions.{
  NotGt, not-gt-add, compare_self, len_utf8-pos, len-append, slice-append_left,
  starts_with_of_prefix,
}
use sendspin_go.Prelude.{
  ℕ, zero, suc, ◌+◌, ◌≡◌, refl, sym, ap, ◌∙◌, ◌⊎◌, inl, inr, true, false, Option, none, some,
  if◌then◌else◌, arith, Bool-cases, ltb, not,
}
use sendspin_go.Prelude.Text.{String, starts_with, find?, str_eq}

-- The text before the first `t` in `s`, where there is one.
abbrev pub before : String → String → Option String
before t empty_text = none
before t (text_cons c s) =
    let rest = before t s in
    if starts_with (text_cons c s) t
    then some empty_text
    else elim rest [ none ↦ none | some u ↦ some (text_cons c u) ]

begins-append : (t u : String) (y n : ℕ) → begins (text_append t u) t y n ≡ y
begins-append empty_text u y n = refl
begins-append (text_cons c t) u y n =
    ap (λ w. begins w (text_cons c t) y n) (append.cons c t u)
    ∙ ap (λ o. same o (begins (text_append t u) t y n) n) (compare_self (code c))
    ∙ begins-append t u y n

is_le-NotGt : (o : Ordering) → NotGt o → is_le o ≡ true
is_le-NotGt Ordering.lt h = refl
is_le-NotGt Ordering.eq h = refl
is_le-NotGt Ordering.gt h = elim h [ ]

is_le-suc : (n : ℕ) → is_le (compare_ℕ (suc n) n) ≡ false
is_le-suc zero = refl
is_le-suc (suc n) = ap is_le (compare.suc-suc (suc n) n) ∙ is_le-suc n

-- What `find` and `before` say of one text.
Located : String → String → Type 0
Located t s =
    ((u : String) × (v : String) × (s ≡ text_append u v)
      × (before t s ≡ some u)
      × (find s t ≡ len u))
    ⊎ ((before t s ≡ none) × (find s t ≡ suc (len s)))

starts_here :
    (c : Char) (s t : String) → starts_with (text_cons c s) t ≡ true → Located t (text_cons c s)
unfolding Located
starts_here c s t h =
    let (v, e) = (starts_with_iff (text_cons c s) t).0 h in
    inl (
      empty_text,
      text_cons c s,
      sym (append.nil (text_cons c s)),
      rw h refl,
      find.cons c s t
          ∙ ap (λ w. begins w t 0 (len_utf8 c + find s t)) (sym e)
          ∙ begins-append t v 0 (len_utf8 c + find s t)
          ∙ sym len.nil,
    )

find_later :
    (c : Char) (s t : String)
    → starts_with (text_cons c s) t ≡ false
    → find (text_cons c s) t ≡ len_utf8 c + find s t
find_later c s t h = elim (begins_cases (text_cons c s) t 0 (len_utf8 c + find s t)) [
  | inl (e, p) ↦ absurd (ground (arith, starts_with_of_prefix t (text_cons c s) p, h))
  | inr e ↦ find.cons c s t ∙ e
]

located : (t s : String) → begins empty_text t 0 1 ≡ 1 → Located t s
unfolding Located
located t empty_text solid = inr (refl, find.nil t ∙ solid ∙ ap suc (sym len.nil))
located t (text_cons c s) solid = elim (Bool-cases (starts_with (text_cons c s) t)) [
  | inl h ↦ starts_here c s t h
  | inr h ↦ elim (located t s solid) [
    | inl (u, v, e, b, f) ↦ inl (
      text_cons c u,
      v,
      ap (text_cons c) e ∙ sym (append.cons c u v),
      rw (h, b) refl,
      find_later c s t h ∙ ap (λ k. len_utf8 c + k) f ∙ sym (len.cons c u),
    )
    | inr (b, f) ↦ inr (
      rw (h, b) refl,
      find_later c s t h
          ∙ ap (λ k. len_utf8 c + k) f
          ∙ add-suc (len_utf8 c) (len s)
          ∙ ap suc (sym (len.cons c s)),
    )
  ]
]

-- For a separator that is not empty, `find?` gives none exactly where `before` does, and otherwise
-- the text before the separator is the slice up to the index, which is its length.
pub find?-before :
    (t s : String)
    → begins empty_text t 0 1 ≡ 1
    → ((u : String) × (before t s ≡ some u) × (find? s t ≡ some (len u)) × (slice s 0 (len u) ≡ u))
      ⊎ ((before t s ≡ none) × (find? s t ≡ none))
unfolding Located
find?-before t s solid = elim (located t s solid) [
  | inl (u, v, e, b, f) ↦
      let fits : is_le (compare_ℕ (len u) (len s)) ≡ true =
        ap (λ n. is_le (compare_ℕ (len u) n)) (ap len e ∙ len-append u v)
        ∙ is_le-NotGt _ (not-gt-add (len u) (len v)) in
      inl (u, b, rw (f, fits) refl, ap (λ w. slice w 0 (len u)) e ∙ slice-append_left u v)
  | inr (b, f) ↦ inr (b, rw (f, is_le-suc (len s)) refl)
]

-- The length of a text is 0 exactly if the text is empty.
pub len-positive : (u : String) → ltb 0 (len u) ≡ not (str_eq u "")
len-positive empty_text = refl
len-positive (text_cons c u) = elim (Bool-cases (str_eq (text_cons c u) "")) [
  | inl h ↦ absurd (cons-ne-nil c u ((eq_iff (text_cons c u) "").0 h))
  | inr h ↦ let (k, e) = len_utf8-pos c in ground (arith, h, len.cons c u, e)
]
