-- ===== src/Ip/Decimal.antt =====
-- A printed octet is read back by `dtoi`.
use mathlib.Core.List.{append-nil}
use casbin_cpp.Base.{
  ℕ, zero, suc, ◌+◌, ◌<◌, Bool, true, false, ◌&&◌, [], ◌∷◌, ◌++◌, Text, nat_eq, length, drop, take,
  length-append, not, some, ltb, ◌/◌, ◌%◌, Bool-cases, inl, inr, ap, sym, ◌∙◌, ◌≡◌, refl, arith,
}
use casbin_cpp.Ip.Numbers.{dtoi}
use casbin_cpp.Util.Trim.{find_char}
use casbin_cpp.Ip.Address.{decimal, decimal_loop}

-- Does the test hold below the bound?
unfoldable pub all_below : ℕ → (ℕ → Bool) → Bool
all_below zero p = true
all_below (suc n) p = p n && all_below n p

pub all_below-at : (n : ℕ) (p : ℕ → Bool) (x : ℕ) → all_below n p ≡ true → x < n → p x ≡ true
unfolding all_below
all_below-at zero p x h lt = absurd (omega arith)
all_below-at (suc n) p x h lt = ground (arith, all_below-at n p x)

-- A printed octet, then a text.
reads : Text → ℕ → Bool
unfolding dtoi decimal
reads rest n =
    nat_eq (dtoi (decimal n ++ rest)).0 n
    && nat_eq (dtoi (decimal n ++ rest)).1 (length (decimal n))

reads_end : all_below 256 (reads []) ≡ true
unfolding all_below reads
reads_end = refl

reads_dot : (s : Text) → all_below 256 (reads (b'.' ∷ s)) ≡ true
unfolding all_below reads
reads_dot s = refl

reads_slash : (s : Text) → all_below 256 (reads (b'/' ∷ s)) ≡ true
unfolding all_below reads
reads_slash s = refl

module _ (n : ℕ) (rest : Text) (small : n < 256) where
  read_pair : all_below 256 (reads rest) ≡ true → dtoi (decimal n ++ rest) ≡ (n, length (decimal n))
  unfolding reads
  read_pair table = ground (arith, all_below-at 256 (reads rest) n table small)

pub dtoi-decimal : (n : ℕ) → n < 256 → dtoi (decimal n) ≡ (n, length (decimal n))
dtoi-decimal n h = ap dtoi (sym (append-nil (decimal n))) ∙ read_pair n [] h reads_end

pub dtoi-decimal_dot :
    (n : ℕ) (s : Text) → n < 256 → dtoi (decimal n ++ b'.' ∷ s) ≡ (n, length (decimal n))
dtoi-decimal_dot n s h = read_pair n (b'.' ∷ s) h (reads_dot s)

-- The characters before a dot or a slash.
abbrev pub Free : ℕ → Text → Type 0
Free c [] = Unit
Free c (x ∷ s) = (nat_eq x c ≡ false) × Free c s

free : ℕ → Text → Bool
free c [] = true
free c (x ∷ s) = not (nat_eq x c) && free c s

Free-of_free : (c : ℕ) (s : Text) → free c s ≡ true → Free c s
unfolding free
Free-of_free c [] h = tt
Free-of_free c (x ∷ s) h = (ground arith, Free-of_free c s (ground arith))

no_slash_table : all_below 256 (λ n. free b'/' (decimal n)) ≡ true
unfolding all_below free decimal
no_slash_table = refl

no_colon_table : all_below 256 (λ n. free b':' (decimal n)) ≡ true
unfolding all_below free decimal
no_colon_table = refl

no_dot_table : all_below 256 (λ n. free b'.' (decimal n)) ≡ true
unfolding all_below free decimal
no_dot_table = refl

pub decimal-Free :
    (n : ℕ) → n < 256 → Free b'/' (decimal n) × Free b':' (decimal n) × Free b'.' (decimal n)
decimal-Free n h = (
  Free-of_free b'/' (decimal n) (all_below-at 256 (λ m. free b'/' (decimal m)) n no_slash_table h),
  Free-of_free b':' (decimal n) (all_below-at 256 (λ m. free b':' (decimal m)) n no_colon_table h),
  Free-of_free b'.' (decimal n) (all_below-at 256 (λ m. free b'.' (decimal m)) n no_dot_table h),
)

pub Free-append : (c : ℕ) (s t : Text) → Free c s → Free c t → Free c (s ++ t)
Free-append c [] t h k = k
Free-append c (x ∷ s) t h k = (h.0, Free-append c s t h.1 k)

pub find_char-append : (c : ℕ) (s t : Text) → Free c s → find_char c (s ++ c ∷ t) ≡ some (length s)
unfolding find_char
find_char-append c [] t h = ground arith
find_char-append c (x ∷ s) t h = ground (arith, find_char-append c s t h.1)

pub length-decimal_pos : (n : ℕ) → 0 < length (decimal n)
unfolding decimal
length-decimal_pos n = elim (Bool-cases (ltb n 10)) [
  | inl e ↦ rw e (omega arith)
  | inr e ↦ rw e (omega (arith, length-append (decimal_loop 4 (n / 10)) ((n % 10 + b'0') ∷ [])))
]

pub drop-append : (s t : Text) → drop (length s) (s ++ t) ≡ t
drop-append [] t = refl
drop-append (x ∷ s) t = drop-append s t

pub take-append : (s t : Text) → take (length s) (s ++ t) ≡ s
take-append [] t = refl
take-append (x ∷ s) t = ap (λ u. x ∷ u) (take-append s t)
