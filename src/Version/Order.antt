-- ===== src/Version/Order.antt =====
-- The order and the equality of version numbers.
use coflo.Prelude.{
  ◌≡◌, ◌↔◌, ◌⊎◌, refl, inl, inr, ap, subst, ◌∙◌, true, false, List, [], ◌∷◌, ◌++◌, none, some,
  Bool-cases,
}
use coflo.Prelude.Int.{
  ℤ, ltb_ℤ, eqb_ℤ, ltb_ℤ_irrefl, ltb_ℤ_trans, ltb_ℤ_total, eqb_ℤ_eq, eqb_ℤ_refl,
}
use coflo.Version.{VersionNumber, equal_digits, less_digits, equals, less}

less_digits_irrefl : (xs : List ℤ) → less_digits xs xs ≡ false
unfolding less_digits
less_digits_irrefl [] = refl
less_digits_irrefl (x ∷ xs) = rw (ltb_ℤ_irrefl x) (less_digits_irrefl xs)

-- How a comparison of non-empty lists came out.
less-cons :
    (x y : ℤ) (xs ys : List ℤ)
    → less_digits (x ∷ xs) (y ∷ ys) ≡ true
    → (ltb_ℤ x y ≡ true) ⊎ ((x ≡ y) × (less_digits xs ys ≡ true))
unfolding less_digits
less-cons x y xs ys h = elim (Bool-cases (ltb_ℤ x y)) [
  | inl lt ↦ inl lt
  | inr ge ↦ elim (Bool-cases (ltb_ℤ y x)) [
    | inl gt ↦ cc (rw (ge, gt) at h)
    | inr le ↦ inr (ltb_ℤ_total x y ge le, rw (ge, le) at h)
  ]
]

less-cons_lt : (x y : ℤ) (xs ys : List ℤ) → ltb_ℤ x y ≡ true → less_digits (x ∷ xs) (y ∷ ys) ≡ true
unfolding less_digits
less-cons_lt x y xs ys h = rw h refl

less-cons_eq : (x : ℤ) (xs ys : List ℤ) → less_digits (x ∷ xs) (x ∷ ys) ≡ less_digits xs ys
unfolding less_digits
less-cons_eq x xs ys = rw (ltb_ℤ_irrefl x) refl

less_digits_trans :
    (xs ys zs : List ℤ)
    → less_digits xs ys ≡ true
    → less_digits ys zs ≡ true
    → less_digits xs zs ≡ true
unfolding less_digits
less_digits_trans [] [] zs h k = cc
less_digits_trans (x ∷ xs) [] zs h k = cc
less_digits_trans [] (y ∷ ys) [] h k = cc
less_digits_trans [] (y ∷ ys) (z ∷ zs) h k = refl
less_digits_trans (x ∷ xs) (y ∷ ys) [] h k = cc
less_digits_trans (x ∷ xs) (y ∷ ys) (z ∷ zs) h k = elim (less-cons x y xs ys h) [
  | inl lt ↦ elim (less-cons y z ys zs k) [
    | inl lt' ↦ less-cons_lt x z xs zs (ltb_ℤ_trans x y z lt lt')
    | inr (e, r) ↦ less-cons_lt x z xs zs (rw (← e) lt)
  ]
  | inr (e, r) ↦ elim (less-cons y z ys zs k) [
    | inl lt' ↦ less-cons_lt x z xs zs (rw e lt')
    | inr (e', r') ↦ rw (e, e') (less-cons_eq z xs zs ∙ less_digits_trans xs ys zs r r')
  ]
]

less_digits_total :
    (xs ys : List ℤ) → less_digits xs ys ≡ false → less_digits ys xs ≡ false → xs ≡ ys
unfolding less_digits
less_digits_total [] [] h k = refl
less_digits_total [] (y ∷ ys) h k = cc
less_digits_total (x ∷ xs) [] h k = cc
less_digits_total (x ∷ xs) (y ∷ ys) h k = elim (Bool-cases (ltb_ℤ x y)) [
  | inl lt ↦ cc (rw lt at h)
  | inr ge ↦ elim (Bool-cases (ltb_ℤ y x)) [
    | inl gt ↦ cc (rw gt at k)
    | inr le ↦
        let same = ltb_ℤ_total x y ge le in
        let rest = less_digits_total xs ys (rw (ge, le) at h) (rw (le, ge) at k) in cc
  ]
]

-- The digits of the left one are a proper prefix of those of the right one, or smaller at the first place
-- where the two differ.
abbrev pub IsBefore : List ℤ → List ℤ → Type 0
IsBefore xs ys =
    ((z : ℤ) × (zs : List ℤ) × (ys ≡ xs ++ z ∷ zs))
    ⊎ ((ps xs' ys' : List ℤ) × (x : ℤ) × (y : ℤ) × (xs ≡ ps ++ x ∷ xs')
        × (ys ≡ ps ++ y ∷ ys')
        × (ltb_ℤ x y ≡ true))

IsBefore-cons : (x : ℤ) (xs ys : List ℤ) → IsBefore xs ys → IsBefore (x ∷ xs) (x ∷ ys)
IsBefore-cons x xs ys (inl (z, zs, e)) = inl (z, zs, ap (λ r. x ∷ r) e)
IsBefore-cons x xs ys (inr (ps, xs', ys', a, b, p, q, lt)) =
    inr (x ∷ ps, xs', ys', a, b, ap (λ r. x ∷ r) p, ap (λ r. x ∷ r) q, lt)

less_digits-IsBefore : (xs ys : List ℤ) → less_digits xs ys ≡ true → IsBefore xs ys
unfolding less_digits
less_digits-IsBefore [] [] h = cc
less_digits-IsBefore [] (y ∷ ys) h = inl (y, ys, refl)
less_digits-IsBefore (x ∷ xs) [] h = cc
less_digits-IsBefore (x ∷ xs) (y ∷ ys) h = elim (less-cons x y xs ys h) [
  | inl lt ↦ inr ([], xs, ys, x, y, refl, refl, lt)
  | inr (same, rest) ↦
      subst (λ z. IsBefore (x ∷ xs) (z ∷ ys)) same
        (IsBefore-cons x xs ys (less_digits-IsBefore xs ys rest))
]

less_digits-prefix : (xs : List ℤ) (z : ℤ) (zs : List ℤ) → less_digits xs (xs ++ z ∷ zs) ≡ true
unfolding less_digits
less_digits-prefix [] z zs = refl
less_digits-prefix (x ∷ xs) z zs = less-cons_eq x xs (xs ++ z ∷ zs) ∙ less_digits-prefix xs z zs

less_digits-differ :
    (ps xs ys : List ℤ) (x y : ℤ)
    → ltb_ℤ x y ≡ true
    → less_digits (ps ++ x ∷ xs) (ps ++ y ∷ ys) ≡ true
less_digits-differ [] xs ys x y lt = less-cons_lt x y xs ys lt
less_digits-differ (p ∷ ps) xs ys x y lt =
    less-cons_eq p (ps ++ x ∷ xs) (ps ++ y ∷ ys) ∙ less_digits-differ ps xs ys x y lt

before_less : (xs ys : List ℤ) → IsBefore xs ys → less_digits xs ys ≡ true
before_less xs ys (inl (z, zs, e)) = rw e (less_digits-prefix xs z zs)
before_less xs ys (inr (ps, xs', ys', x, y, p, q, lt)) =
    rw (p, q) (less_digits-differ ps xs' ys' x y lt)

-- operator< holds exactly if the digits of the left operand are a proper prefix of those of the right one,
-- or smaller at the first place where the two differ. It is a strict order on version numbers, and two
-- that it does not order have the same digits.
pub less_order :
    (u v w : VersionNumber)
    → ((less u v ≡ true) ↔ IsBefore u.version_digits v.version_digits)
      × (less v v ≡ false)
      × (less u v ≡ true → less v w ≡ true → less u w ≡ true)
      × (less u v ≡ false → less v u ≡ false → u.version_digits ≡ v.version_digits)
unfolding less
less_order u v w = (
  (
    less_digits-IsBefore u.version_digits v.version_digits,
    before_less u.version_digits v.version_digits,
  ),
  less_digits_irrefl v.version_digits,
  less_digits_trans u.version_digits v.version_digits w.version_digits,
  less_digits_total u.version_digits v.version_digits,
)

equal_digits-append : (xs zs : List ℤ) → equal_digits xs (xs ++ zs) ≡ some true
unfolding equal_digits
equal_digits-append [] zs = refl
equal_digits-append (x ∷ xs) zs = rw (eqb_ℤ_refl x) (equal_digits-append xs zs)

prefix_of_equal :
    (xs ys : List ℤ) → equal_digits xs ys ≡ some true → (zs : List ℤ) × (ys ≡ xs ++ zs)
unfolding equal_digits
prefix_of_equal [] ys h = (ys, refl)
prefix_of_equal (x ∷ xs) [] h = cc
prefix_of_equal (x ∷ xs) (y ∷ ys) h = elim (Bool-cases (eqb_ℤ x y)) [
  | inl e ↦
      let (zs, eq) = prefix_of_equal xs ys (rw e at h) in let same = eqb_ℤ_eq x y e in (zs, cc)
  | inr ne ↦ cc (rw ne at h)
]

equal_digits_short : (ys : List ℤ) (z : ℤ) (zs : List ℤ) → equal_digits (ys ++ z ∷ zs) ys ≡ none
unfolding equal_digits
equal_digits_short [] z zs = refl
equal_digits_short (y ∷ ys) z zs = rw (eqb_ℤ_refl y) (equal_digits_short ys z zs)

-- operator== says that two version numbers are equal exactly if the digits of the left one begin those
-- of the right one; it reads past the end of a right one whose digits begin those of the left one and are
-- fewer.
pub equals_lem :
    (v w : VersionNumber)
    → ((equals v w ≡ some true) ↔ ((zs : List ℤ) × (w.version_digits ≡ v.version_digits ++ zs)))
      × ((z : ℤ) (zs : List ℤ) → v.version_digits ≡ w.version_digits ++ z ∷ zs → equals v w ≡ none)
unfolding equals
equals_lem v w = (
  (
    prefix_of_equal v.version_digits w.version_digits,
    λ (zs, e). rw e (equal_digits-append v.version_digits zs),
  ),
  λ z zs e. rw e (equal_digits_short w.version_digits z zs),
)
