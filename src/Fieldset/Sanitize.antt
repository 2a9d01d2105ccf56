-- ===== src/Fieldset/Sanitize.antt =====
-- src/fieldset.c: `sanitize_utf8` makes a string UTF-8.
use mathlib.Core.List.{append_assoc}
use zmap_embedded_ip.Base.{
  ℕ, zero, suc, ◌+◌, ◌-◌, ◌*◌, ◌≤◌, ◌<◌, ◌≡◌, refl, ap, ◌∙◌, inl, inr, Bool, true, false, Option,
  none, some, [], ◌∷◌, ◌++◌, length, take, ltb, ◌==◌, lt→ltb, ==_iff, Option-cases, length-append,
  length-take, arith,
}
use zmap_embedded_ip.Fieldset.{Str, Fieldset, fs_string, chars, fs_add_word}
use zmap_embedded_ip.Fieldset.Unsafe.{
  Strings, shift_rest, drop, rune, count_errors, fix_errors, add_safe, is_sanitized, sanitize_utf8,
  fs_add_unsafe_string,
}

-- An index behind `n` bytes.
abbrev pub behind : ℕ → Option ℕ → Option ℕ
behind n none = none
behind n (some p) = some (n + p)

-- What the library says of `u8_check`: it returns NULL, or a pointer to the first invalid unit of
-- the string, so what stands before it is valid, and a valid string in front of another moves the
-- result of the other one; the replacement rune is valid.
pub record IsUtf8Check (u8_check : Str → Option ℕ) : Type 0 where
  pub inside : (s : Str) (p : ℕ) → u8_check s ≡ some p → p < length s
  pub valid_before : (s : Str) (p : ℕ) → u8_check s ≡ some p → u8_check (take p s) ≡ none
  pub valid_then :
      (v t : Str) → u8_check v ≡ none → u8_check (v ++ t) ≡ behind (length v) (u8_check t)
  pub rune_valid : u8_check rune ≡ none

take-append : (v s : Str) (p : ℕ) → take (length v + p) (v ++ s) ≡ v ++ take p s
take-append [] s p = let e : 0 + p ≡ p = omega arith in rw e refl
take-append (c ∷ v) s p =
    let e : suc (length v) + p ≡ suc (length v + p) = omega arith in rw (e, take-append v s p) refl

drop-append : (v s : Str) (p : ℕ) → drop (length v + p) (v ++ s) ≡ drop p s
unfolding drop
drop-append [] s p = let e : 0 + p ≡ p = omega arith in rw e refl
drop-append (c ∷ v) s p =
    let e : suc (length v) + p ≡ suc (length v + p) = omega arith in
    rw (e, drop, drop-append v s p) refl

length-drop : (n : ℕ) (s : Str) → n ≤ length s → length (drop n s) + n ≡ length s
unfolding drop
length-drop zero s h = omega arith
length-drop (suc n) [] h = absurd (omega arith)
length-drop (suc n) (c ∷ s) h = omega (arith, length-drop n s (omega arith))

-- `memcpy` copies up to `n` bytes to a place two bytes higher. The C standard promises it for at most
-- two bytes, which do not overlap with their copy, FreeBSD's manual for any number.
unfoldable pub Copies : Strings → ℕ → Type 0
Copies strings n = (s : Str) → length s ≤ n → strings.memcpy 2 s ≡ some s

-- What `u8_check` is documented to do, and a `memcpy` that copies overlapping bytes too.
pub record IsStrings (strings : Strings) : Type 0 where
  pub utf8 : IsUtf8Check strings.u8_check
  pub copies : (n : ℕ) → Copies strings n

module _ (strings : Strings) (ok : IsUtf8Check strings.u8_check) where
  empty_valid : strings.u8_check [] ≡ none
  empty_valid = elim (Option-cases (strings.u8_check [])) [
    | inl e ↦ e
    | inr (p, e) ↦ absurd (omega (arith, ok.inside [] p e))
  ]

  valid-append :
      (v t : Str)
      → strings.u8_check v ≡ none
      → strings.u8_check t ≡ none
      → strings.u8_check (v ++ t) ≡ none
  valid-append v t hv ht = rw (ok.valid_then v t hv, ht) refl

  -- What the second loop makes of the string `s` behind a valid one with as many errors.
  record Fixes (v s : Str) (errors : ℕ) : Type 0 where
    fixed : Str
    runs : fix_errors strings errors (v ++ s) ≡ some (fixed, errors)
    valid : strings.u8_check fixed ≡ none
    size : length fixed ≡ length v + length s + errors * 2

  no_error : (v s : Str) → strings.u8_check (v ++ s) ≡ none → Fixes v s 0
  unfolding fix_errors
  no_error v s valid = record {
    fixed = v ++ s;
    runs = refl;
    valid = valid;
    size = omega (arith, length-append v s);
  }

  shift_rest-Copies :
      (s : Str) (n : ℕ) → Copies strings n → length s ≤ n → shift_rest strings s ≡ some s
  unfolding shift_rest Copies
  shift_rest-Copies [] n copies few = refl
  shift_rest-Copies (c ∷ s) n copies few = copies (c ∷ s) few

  -- One error is fixed, and the string behind it is left.
  one_error :
      (v s : Str) (p errors : ℕ)
      → strings.u8_check v ≡ none
      → strings.u8_check s ≡ some p
      → Copies strings (length s - (p + 1))
      → Fixes (v ++ (take p s ++ rune)) (drop (p + 1) s) errors
      → Fixes v s (suc errors)
  unfolding fix_errors
  one_error v s p errors hv bad copies rest =
      let inside = ok.inside s p bad in
      let found : strings.u8_check (v ++ s) ≡ some (length v + p) =
        rw (ok.valid_then v s hv, bad) refl in
      let room : ltb (length v + p) (length (v ++ s)) ≡ true =
        lt→ltb _ _ (omega (arith, length-append v s)) in
      let next : length v + p + 1 ≡ length v + (p + 1) = omega arith in
      let left : drop (length v + p + 1) (v ++ s) ≡ drop (p + 1) s =
        rw (next, drop-append v s (p + 1)) refl in
      let copied : shift_rest strings (drop (p + 1) s) ≡ some (drop (p + 1) s) =
        shift_rest-Copies (drop (p + 1) s) _ copies
          (omega (arith, length-drop (p + 1) s (omega arith))) in
      let buffer : take (length v + p) (v ++ s) ++ rune ++ drop (p + 1) s
          ≡ (v ++ (take p s ++ rune)) ++ drop (p + 1) s =
        rw (take-append v s p, append_assoc v (take p s) rune) refl in
      record {
        fixed = rest.fixed;
        runs = rw (fix_errors, found, room, left, copied, buffer, rest.runs) refl;
        valid = rest.valid;
        size = omega (
          arith,
          rest.size,
          length-append v (take p s ++ rune),
          length-append (take p s) rune,
          length-take p s (omega arith),
          length-drop (p + 1) s (omega arith),
        );
      }

  fix_errors-Fixes :
      (rounds : ℕ) (v s : Str)
      → strings.u8_check v ≡ none
      → length s ≤ rounds
      → ((p : ℕ) → strings.u8_check s ≡ some p → Copies strings (length s - (p + 1)))
      → (errors : ℕ) × (count_errors strings rounds s ≡ some errors) × Fixes v s errors
  unfolding count_errors Copies
  fix_errors-Fixes zero v [] hv enough copies =
      (0, refl, no_error v [] (valid-append v [] hv empty_valid))
  fix_errors-Fixes zero v (c ∷ s) hv enough copies = absurd (omega arith)
  fix_errors-Fixes (suc rounds) v [] hv enough copies =
      (0, refl, no_error v [] (valid-append v [] hv empty_valid))
  fix_errors-Fixes (suc rounds) v (c ∷ s) hv enough copies =
      let filled : (length (c ∷ s) == 0) ≡ false = ground arith in
      elim (Option-cases (strings.u8_check (c ∷ s))) [
        | inl e ↦ (0, rw (filled, e) refl, no_error v (c ∷ s) (valid-append v (c ∷ s) hv e))
        | inr (p, e) ↦
            let inside = ok.inside (c ∷ s) p e in
            let before =
              valid-append (take p (c ∷ s)) rune (ok.valid_before (c ∷ s) p e) ok.rune_valid in
            let (errors, counted, rest) =
              fix_errors-Fixes rounds (v ++ (take p (c ∷ s) ++ rune)) (drop (p + 1) (c ∷ s))
                (valid-append v (take p (c ∷ s) ++ rune) hv before)
                (omega (arith, length-drop (p + 1) (c ∷ s) (omega arith)))
                (λ q later t few.
                  copies p e t (omega (arith, few, length-drop (p + 1) (c ∷ s) (omega arith)))) in
            let room = lt→ltb _ _ inside in
            (
              suc errors,
              rw (count_errors, filled, e, room, counted) refl,
              one_error v (c ∷ s) p errors hv e (copies p e) rest,
            )
      ]

  -- With `u8_check` as its library documents it, and a `memcpy` that copies as many bytes as stand
  -- behind the first error to a place two bytes higher, which the C standard promises for at most
  -- two: no assertion of `sanitize_utf8` fails, and the second loop does not run out of errors. The
  -- result is valid UTF-8, two bytes longer for each error that the first loop counts.
  pub sanitize_utf8-valid :
      (buf : Str)
      → ((p : ℕ) → strings.u8_check buf ≡ some p → Copies strings (length buf - (p + 1)))
      → (safe : Str) × (errors : ℕ) × (sanitize_utf8 strings buf ≡ some safe)
        × (count_errors strings (length buf) buf ≡ some errors)
        × (strings.u8_check safe ≡ none)
        × (length safe ≡ length buf + errors * 2)
  unfolding sanitize_utf8 is_sanitized
  sanitize_utf8-valid buf copies =
      let (errors, counted, fixes) =
        fix_errors-Fixes (length buf) [] buf empty_valid (omega arith) copies in
      let size : (length fixes.fixed == length buf + errors * 2) ≡ true =
        (==_iff _ _).1 (omega (arith, fixes.size)) in
      (
        fixes.fixed,
        errors,
        rw (sanitize_utf8, counted, fixes.runs, is_sanitized, fixes.valid, size) refl,
        counted,
        fixes.valid,
        omega (arith, fixes.size),
      )

  -- What `fs_add_unsafe_string` adds is a field with some valid string.
  pub fs_add_unsafe_string-word :
      (fs : Fieldset) (name value : Str) (free_ : Bool)
      → ((n : ℕ) → Copies strings n)
      → (safe : Str) × (owned : Bool) × (fs_add_unsafe_string strings fs name value free_
          ≡ fs_add_word fs name fs_string owned (length safe) (chars safe))
        × (strings.u8_check safe ≡ none)
  unfolding fs_add_unsafe_string add_safe
  fs_add_unsafe_string-word fs name value free_ copies =
      elim (Option-cases (strings.u8_check value)) [
        | inl e ↦ (value, free_, rw (fs_add_unsafe_string, e) refl, e)
        | inr (p, e) ↦
            let (safe, errors, runs, counted, valid, size) =
              sanitize_utf8-valid value (λ p first. copies (length value - (p + 1))) in
            let branch : fs_add_unsafe_string strings fs name value free_
                ≡ add_safe fs name (sanitize_utf8 strings value) =
              rw (fs_add_unsafe_string, e) refl in
            (safe, true, branch ∙ ap (add_safe fs name) runs, valid)
      ]
