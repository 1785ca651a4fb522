-- ===== src/Device/Strings.antt =====
-- What the path functions of the registry decide and copy.
use ulmk_microkernel.Base.{
  ℕ, zero, suc, ◌+◌, ◌≤◌, ◌<◌, ◌≡◌, ◌≢◌, ◌↔◌, refl, sym, ◌∙◌, Bool, true, false, some, arith, ltb,
  ◌==◌, inl, inr, Bool-cases, ==→eq,
}
use ulmk_microkernel.Device.Path.{
  CString, inline_bytes, path_max, put, path_scan, path_ok, eq_loop, path_eq, copy_loop, path_copy,
}

-- Two strings agree up to and with the first NUL of `a`, or in their first `n` bytes.
abbrev pub AgreeTo : ℕ → CString → CString → Type 0
AgreeTo n a b = (k : ℕ) → k < n → ((j : ℕ) → j < k → a j ≢ 0) → a k ≡ b k

-- The first NUL of the path comes after more than one byte and before the end of the inline window.
pub record IsPath (path : CString) : Type 0 where
  pub slash : path 0 ≡ b'/'
  pub len : ℕ
  pub long : 1 < len
  pub short : len < inline_bytes
  pub ends : path len ≡ 0
  pub inside : (j : ℕ) → j < len → path j ≢ 0

-- From `i` on: eq_loop compares up to the first NUL.
eq_loop_sound :
    (n i : ℕ) (a b : CString)
    → eq_loop n i a b ≡ true
    → (k : ℕ) → i ≤ k
    → k < i + n
    → ((j : ℕ) → i ≤ j → j < k → a j ≢ 0)
    → a k ≡ b k
unfolding eq_loop
eq_loop_sound zero i a b h k h1 h2 nz = absurd (omega arith)
eq_loop_sound (suc n) i a b h k h1 h2 nz = elim (Bool-cases (i == k)) [
  | inl same ↦ ground arith
  | inr more ↦
      eq_loop_sound n (i + 1) a b (ground (arith, nz i)) k (ground arith) (omega arith)
        (λ j g1 g2. nz j (omega arith) g2)
]

nonzero_from :
    (a : CString) (i k : ℕ)
    → (a i == 0) ≡ false
    → ((j : ℕ) → i + 1 ≤ j → j < k → a j ≢ 0)
    → (j : ℕ) → i ≤ j
    → j < k
    → a j ≢ 0
nonzero_from a i k more nz j g1 g2 = elim (Bool-cases (i == j)) [
  | inl same ↦ ground arith
  | inr after ↦ nz j (ground arith) g2
]

eq_loop_complete :
    (n i : ℕ) (a b : CString)
    → ((k : ℕ) → i ≤ k → k < i + n → ((j : ℕ) → i ≤ j → j < k → a j ≢ 0) → a k ≡ b k)
    → eq_loop n i a b ≡ true
unfolding eq_loop
eq_loop_complete zero i a b h = refl
eq_loop_complete (suc n) i a b h = elim (Bool-cases (a i == 0)) [
  | inl stop ↦ ground (arith, h i (omega arith) (omega arith) (λ j g1 g2. absurd (omega arith)))
  | inr more ↦
      let here = h i (omega arith) (omega arith) (λ j g1 g2. absurd (omega arith)) in
      ground (
        arith,
        here,
        eq_loop_complete n (i + 1) a b
            (λ k g1 g2 nz. h k (omega arith) (omega arith) (nonzero_from a i k more nz)),
      )
]

-- ulmk_dev_path_eq holds just of two strings that agree up to and with the first NUL, or in all
-- ULMK_DEV_PATH_MAX bytes.
pub path_eq_iff : (a b : CString) → (path_eq a b ≡ true) ↔ AgreeTo path_max a b
unfolding path_eq
path_eq_iff a b = (
  λ h k hk nz. eq_loop_sound path_max 0 a b h k (omega arith) (omega arith) (λ j g1 g2. nz j g2),
  λ h.
      eq_loop_complete path_max 0 a b
        (λ k g1 g2 nz. h k (omega arith) (λ j g3. nz j (omega arith) g3)),
)

record Stops (n i : ℕ) (p : CString) : Type 0 where
  at : ℕ
  from : i ≤ at
  upto : at < i + n
  long : 1 < at
  ends : p at ≡ 0
  inside : (j : ℕ) → i ≤ j → j < at → p j ≢ 0

path_scan_sound : (n i : ℕ) (p : CString) → path_scan n i p ≡ true → Stops n i p
unfolding path_scan
path_scan_sound zero i p h = absurd (ground arith)
path_scan_sound (suc n) i p h = elim (Bool-cases (p i == 0)) [
  | inl stop ↦ record {
    at = i;
    from = omega arith;
    upto = omega arith;
    long = ground arith;
    ends = ground arith;
    inside = λ j g1 g2. absurd (omega arith);
  }
  | inr more ↦
      let rest = path_scan_sound n (i + 1) p (ground arith) in
      record {
        at = rest.at;
        from = omega (arith, rest.from);
        upto = omega (arith, rest.upto);
        long = rest.long;
        ends = rest.ends;
        inside = nonzero_from p i rest.at more rest.inside;
      }
]

path_scan_complete :
    (n i at : ℕ) (p : CString)
    → i ≤ at
    → at < i + n
    → 1 < at
    → p at ≡ 0
    → ((j : ℕ) → i ≤ j → j < at → p j ≢ 0)
    → path_scan n i p ≡ true
unfolding path_scan
path_scan_complete zero i at p h1 h2 h3 e nz = absurd (omega arith)
path_scan_complete (suc n) i at p h1 h2 h3 e nz = elim (Bool-cases (i == at)) [
  | inl same ↦ ground arith
  | inr before ↦ ground (
    arith,
    nz i,
    path_scan_complete n (i + 1) at p (ground arith) (omega arith) h3 e
        (λ j g1 g2. nz j (omega arith) g2),
  )
]

pub path_ok_sound : (p : CString) → path_ok (some p) ≡ true → IsPath p
unfolding path_ok
path_ok_sound p h =
    let stops = path_scan_sound inline_bytes 0 p (ground arith) in
    record {
      slash = ground arith;
      len = stops.at;
      long = stops.long;
      short = stops.upto;
      ends = stops.ends;
      inside = λ j g. stops.inside j (omega arith) g;
    }

pub path_ok_complete : (p : CString) → IsPath p → path_ok (some p) ≡ true
unfolding path_ok
path_ok_complete p w = ground (
  arith,
  w.slash,
  path_scan_complete inline_bytes 0 w.len p (omega arith) w.short w.long w.ends
      (λ j g1 g2. w.inside j g2),
)

-- ulmk_dev_path_ok accepts just the strings that start with a slash and whose first NUL comes after
-- at least two bytes and before byte ULMK_DEV_INLINE_BYTES.
pub path_ok_iff : (p : CString) → (path_ok (some p) ≡ true) ↔ IsPath p
path_ok_iff p = (path_ok_sound p, path_ok_complete p)

copy_loop_low : (n i k : ℕ) (d s : CString) → k < i → copy_loop n i d s k ≡ d k
unfolding copy_loop
copy_loop_low zero i k d s h = ground arith
copy_loop_low (suc n) i k d s h = ground (arith, copy_loop_low n (i + 1) k (put d i (s i)) s)

copy_loop_high :
    (n i k : ℕ) (d s : CString)
    → i ≤ k
    → k < i + n
    → ((j : ℕ) → i ≤ j → j < k → s j ≢ 0)
    → copy_loop n i d s k ≡ s k
unfolding copy_loop
copy_loop_high zero i k d s h1 h2 nz = absurd (omega arith)
copy_loop_high (suc n) i k d s h1 h2 nz = elim (Bool-cases (i == k)) [
  | inl same ↦ ground (arith, copy_loop_low n (i + 1) k (put d i (s i)) s, ==→eq i k)
  | inr before ↦ ground (
    arith,
    nz i,
    copy_loop_high n (i + 1) k (put d i (s i)) s (ground arith) (omega arith)
        (λ j g1 g2. nz j (omega arith) g2),
  )
]

-- A well formed path and its copy by ulmk_dev_path_copy agree up to and with the NUL, whatever the
-- destination held.
pub path_copy_agrees : (d p : CString) → IsPath p → AgreeTo path_max p (path_copy d p)
unfolding path_copy
path_copy_agrees d p w k hk nz = elim (Bool-cases (ltb w.len k)) [
  | inl past ↦ absurd (nz w.len (ground arith) w.ends)
  | inr before ↦ sym (
      copy_loop_high inline_bytes 0 k d p (omega arith) (ground (arith, w.short))
        (λ j g1 g2. nz j g2))
]

-- A string with no NUL before `k` forces the string that it agrees with to have none either.
agree_nonzero :
    (n k : ℕ) (a b : CString)
    → k ≤ n
    → AgreeTo n a b
    → ((j : ℕ) → j < k → b j ≢ 0)
    → (j : ℕ) → j < k
    → a j ≢ 0
agree_nonzero n zero a b hk h nz j g = absurd (omega arith)
agree_nonzero n (suc k) a b hk h nz j g =
    let before = agree_nonzero n k a b (omega arith) h (λ i gi. nz i (omega arith)) in
    elim (Bool-cases (j == k)) [
      | inl last ↦ ground (arith, h k (omega arith) before, nz k)
      | inr earlier ↦ before j (ground arith)
    ]

agree_sym : (n : ℕ) (a b : CString) → AgreeTo n a b → AgreeTo n b a
agree_sym n a b h k hk nz = sym (h k hk (agree_nonzero n k a b (omega arith) h nz))

agree_trans : (n : ℕ) (a b c : CString) → AgreeTo n a b → AgreeTo n b c → AgreeTo n a c
agree_trans n a b c h g k hk nz =
    h k hk nz ∙ g k hk (agree_nonzero n k b a (omega arith) (agree_sym n a b h) nz)

bool_of_iff : (x y : Bool) → (x ≡ true → y ≡ true) → (y ≡ true → x ≡ true) → x ≡ y
bool_of_iff true y f g = sym (f refl)
bool_of_iff false true f g = ground (arith, g refl)
bool_of_iff false false f g = refl

pub path_eq_refl : (a : CString) → path_eq a a ≡ true
path_eq_refl a = (path_eq_iff a a).1 (λ k hk nz. refl)

pub path_eq_comm : (a b : CString) → path_eq a b ≡ path_eq b a
path_eq_comm a b =
    bool_of_iff _ _ (λ h. (path_eq_iff b a).1 (agree_sym path_max a b ((path_eq_iff a b).0 h)))
      (λ h. (path_eq_iff a b).1 (agree_sym path_max b a ((path_eq_iff b a).0 h)))

-- Equal paths compare alike with every other.
pub path_eq-congr : (a b c : CString) → path_eq a b ≡ true → path_eq a c ≡ path_eq b c
path_eq-congr a b c e =
    let ab = (path_eq_iff a b).0 e in
    bool_of_iff _ _
      (λ h.
        (path_eq_iff b c).1
          (agree_trans path_max b a c (agree_sym path_max a b ab) ((path_eq_iff a c).0 h)))
      (λ h. (path_eq_iff a c).1 (agree_trans path_max a b c ab ((path_eq_iff b c).0 h)))

pub path_eq-copy : (d p q : CString) → IsPath p → path_eq (path_copy d p) q ≡ path_eq p q
path_eq-copy d p q w =
    sym (
      path_eq-congr p (path_copy d p) q
        ((path_eq_iff p (path_copy d p)).1 (path_copy_agrees d p w)))
