-- ===== src/Translation/Truncate.antt =====
-- crates/translation/src/translator.rs: the part of a long text that is sent to the provider.
use Prim.Native.Char.{Char, code, len_utf8, len_utf8_def, width}
use Prim.Native.Nat.{Ordering}
use Prim.Native.String.{String, ◌++◌}
use Prim.Native.String.len
use text.Mathlib.TextLemmas.{nil-append, cons-append, append_assoc}
use text.Mathlib.TextPositions.{slice-append_left, len-append}
use signal_bot_tee.Common.{
  ℕ, ◌+◌, ◌≤◌, ◌<◌, ◌==◌, ◌≡◌, refl, ap, sym, ◌∙◌, Option, none, some, ltb, leb, if◌then◌else◌,
  unwrap_or, arith, inl, inr, ◌⊎◌, Bool-cases, Option-cases,
}
use signal_bot_tee.Common.Text.{byte_length, slice}

-- The loop over `char_indices`: the index of the next character, and `safe_end`
unfoldable pub safe_end : ℕ → ℕ → ℕ → String → ℕ
safe_end max idx end String.[] = end
safe_end max idx end (String.◌∷◌ c s) =
    let rest = safe_end max (idx + len_utf8 c) (idx + len_utf8 c) s in
    if leb max idx then end else rest

abbrev pub shift_index : Char → Option ℕ → Option ℕ
shift_index c (some k) = some (len_utf8 c + k)
shift_index c none = if code c == 32 then some 0 else none

-- `text.rfind(' ')`
unfoldable pub rfind_space : String → Option ℕ
rfind_space String.[] = none
rfind_space (String.◌∷◌ c s) = shift_index c (rfind_space s)

-- `text_to_translate`
unfoldable pub text_to_translate : ℕ → String → String
unfolding safe_end rfind_space
text_to_translate max text =
    if ltb max (byte_length text)
    then (let truncated = slice text 0 (safe_end max 0 0 text) in
        slice text 0 (unwrap_or (rfind_space truncated) (byte_length truncated)) ++ "...")
    else text

-- A text is cut in two, the first part of which has `n` bytes.
pub record Cut (text : String) (n : ℕ) : Type 0 where
  pub before : String
  pub after : String
  pub joined : text ≡ before ++ after
  pub bytes : byte_length before ≡ n

width-le : (a b c : Ordering) → width a b c ≤ 4
width-le Ordering.lt b c = omega arith
width-le Ordering.eq Ordering.lt c = omega arith
width-le Ordering.eq Ordering.eq Ordering.lt = omega arith
width-le Ordering.eq Ordering.eq Ordering.eq = omega arith
width-le Ordering.eq Ordering.eq Ordering.gt = omega arith
width-le Ordering.eq Ordering.gt Ordering.lt = omega arith
width-le Ordering.eq Ordering.gt Ordering.eq = omega arith
width-le Ordering.eq Ordering.gt Ordering.gt = omega arith
width-le Ordering.gt Ordering.lt c = omega arith
width-le Ordering.gt Ordering.eq Ordering.lt = omega arith
width-le Ordering.gt Ordering.eq Ordering.eq = omega arith
width-le Ordering.gt Ordering.eq Ordering.gt = omega arith
width-le Ordering.gt Ordering.gt Ordering.lt = omega arith
width-le Ordering.gt Ordering.gt Ordering.eq = omega arith
width-le Ordering.gt Ordering.gt Ordering.gt = omega arith

len_utf8-le : (c : Char) → len_utf8 c ≤ 4
len_utf8-le c = rw (len_utf8_def c) (width-le _ _ _)

-- A cut of a text goes on behind one more character.
Cut-later : (c : Char) (s : String) {n : ℕ} → Cut s n → Cut (String.◌∷◌ c s) (len_utf8 c + n)
Cut-later c s {n} k = record {
  before = String.◌∷◌ c k.before;
  after = k.after;
  joined = ap (String.◌∷◌ c) k.joined ∙ sym (cons-append c k.before k.after);
  bytes = len.cons c k.before ∙ ap (λ m. len_utf8 c + m) k.bytes;
}

Cut-start : (s : String) → Cut s 0
Cut-start s = record { before = ""; after = s; joined = sym (nil-append s); bytes = refl }

-- The loop ends on a boundary, less than four bytes after the limit.
safe_end-Cut :
    (max idx : ℕ) (s : String)
    → (n : ℕ) × (safe_end max idx idx s ≡ idx + n) × Cut s n × ((n ≡ 0) ⊎ (idx + n ≤ max + 3))
unfolding safe_end
safe_end-Cut max idx String.[] = (0, omega arith, Cut-start "", inl refl)
safe_end-Cut max idx (String.◌∷◌ c s) = elim (Bool-cases (leb max idx)) [
  | inl over ↦ (0, ground (arith, over), Cut-start (String.◌∷◌ c s), inl refl)
  | inr within ↦
      let (n, same, cut, bound) = safe_end-Cut max (idx + len_utf8 c) s in
      (
        len_utf8 c + n,
        ground (arith, within, same),
        Cut-later c s cut,
        inr (ground (arith, within, bound, len_utf8-le c)),
      )
]

rfind_space-Cut : (s : String) {k : ℕ} → rfind_space s ≡ some k → Cut s k
unfolding rfind_space
rfind_space-Cut String.[] h = absurd (cc)
rfind_space-Cut (String.◌∷◌ c s) {k} h = later (rfind_space s) (λ j. rfind_space-Cut s {k = j}) h
  where
    later :
        (o : Option ℕ)
        → ((j : ℕ) → o ≡ some j → Cut s j)
        → shift_index c o ≡ some k
        → Cut (String.◌∷◌ c s) k
    later none cuts first = elim (Bool-cases (code c == 32)) [
      | inl space ↦
          let here : k ≡ 0 = ground (arith, first, space) in rw here (Cut-start (String.◌∷◌ c s))
      | inr other ↦ absurd (ground (arith, first, other))
    ]
    later (some j) cuts first =
        let there : k ≡ len_utf8 c + j = ground (arith, first) in
        rw there (Cut-later c s (cuts j refl))

slice-Cut : {text : String} {n : ℕ} (cut : Cut text n) → slice text 0 n ≡ cut.before
slice-Cut {text} {n} cut =
    ap (λ s. slice s 0 n) cut.joined
    ∙ ap (slice (cut.before ++ cut.after) 0) (sym cut.bytes)
    ∙ slice-append_left cut.before cut.after

-- A cut of the first part is one of the whole.
Cut-first : {text : String} {n k : ℕ} (cut : Cut text n) → Cut cut.before k → Cut text k
Cut-first cut inner = record {
  before = inner.before;
  after = inner.after ++ cut.after;
  joined =
      cut.joined
      ∙ ap (λ s. s ++ cut.after) inner.joined
      ∙ append_assoc inner.before inner.after cut.after;
  bytes = inner.bytes;
}

Cut-le : {text : String} {n : ℕ} → Cut text n → n ≤ byte_length text
Cut-le cut =
    let whole = ap byte_length cut.joined ∙ len-append cut.before cut.after in
    omega (arith, whole, cut.bytes)

-- A beginning of the text, and how many bytes it has at most.
abbrev pub IsBeginning : ℕ → String → String → Type 0
IsBeginning max text start =
    (rest : String) × (text ≡ start ++ rest) × (byte_length start ≤ max + 3)

-- The text up to its last space, if there is one
up_to_space :
    {text : String} {n : ℕ} (cut : Cut text n)
    → Cut text (unwrap_or (rfind_space cut.before) (byte_length cut.before))
up_to_space {text} {n} cut = elim (Option-cases (rfind_space cut.before)) [
  | inl none_found ↦ rw (none_found, cut.bytes) cut
  | inr (k, found) ↦ rw found (Cut-first cut (rfind_space-Cut cut.before found))
]

shorter : (s : String) → unwrap_or (rfind_space s) (byte_length s) ≤ byte_length s
shorter s = elim (Option-cases (rfind_space s)) [
  | inl none_found ↦ rw none_found (omega arith)
  | inr (k, found) ↦ rw found (Cut-le (rfind_space-Cut s found))
]

-- What is sent to the provider of a text longer than the limit is a beginning of it, cut between
-- two characters at most three bytes behind the limit, and three dots; a text within the limit is
-- sent as it is.
pub text_to_translate-IsBeginning :
    (max : ℕ) (text : String)
    → ((byte_length text ≤ max) × (text_to_translate max text ≡ text))
      ⊎ ((max < byte_length text)
          × (start : String) × (text_to_translate max text ≡ start ++ "...")
          × IsBeginning max text start)
unfolding text_to_translate
text_to_translate-IsBeginning max text = elim (Bool-cases (ltb max (byte_length text))) [
  | inr fits ↦ inl (ground (arith, fits), ground (arith, fits))
  | inl long ↦
      let (n, same, cut, bound) = safe_end-Cut max 0 text in
      let ends : safe_end max 0 0 text ≡ n = omega (arith, same) in
      let first : slice text 0 (safe_end max 0 0 text) ≡ cut.before =
        ap (slice text 0) ends ∙ slice-Cut cut in
      let kept = up_to_space cut in
      inr (
        ground (arith, long),
        kept.before,
        rw (long, first) (ap (λ s. s ++ "...") (slice-Cut kept)),
        (kept.after, kept.joined, ground (arith, kept.bytes, shorter cut.before, cut.bytes, bound)),
      )
]
