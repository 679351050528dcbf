-- ===== src/Preflight/Separated.antt =====
-- What it means that client/lib/deploy-preflight.ts finds no violation.
use kryon.Common.{
  ◌≡◌, refl, sym, String, true, Option, none, some, List, [], ◌∷◌, ◌++◌, str_eq, Bool-cases, inl,
  inr, arith, eq_iff, All, ◌↔◌, All-intro, All-at, In,
}
use kryon.Matcher.Sort.{Pairwise}
use kryon.Preflight.{
  RoleKeys, operator_roles, has_key, admin_violations, seen_role, on_seen, on_key, role_violations,
  with_admin, key_separation_violations,
}

-- Two roles have a key, the same.
abbrev pub Share : RoleKeys → String → String → Type 0
Share roles a b = (key : String) × (roles a ≡ some key) × (roles b ≡ some key)

abbrev pub AreApart : RoleKeys → String → String → Type 0
AreApart roles a b = ¬ (Share roles a b)

has_key-some : (r : Option String) (key : String) → has_key r key ≡ true → r ≡ some key
has_key-some none key h = absurd (ground (arith, h))
has_key-some (some k) key h = grind (arith, eq_iff, h)

some-has_key : (r : Option String) (key : String) → r ≡ some key → has_key r key ≡ true
some-has_key none key h = absurd (ground (arith, h))
some-has_key (some k) key h = grind (arith, eq_iff, h)

-- No operator has the key of the admin.
admin_violations-nil :
    (roles : RoleKeys) (admin : String) (rs : List String)
    → (admin_violations roles admin rs ≡ []) ↔ All (λ r. ¬ (roles r ≡ some admin)) rs
unfolding admin_violations
admin_violations-nil roles admin [] = (λ h. tt, λ h. refl)
admin_violations-nil roles admin (r ∷ rs) =
    let (there, back) = admin_violations-nil roles admin rs in
    elim (Bool-cases (has_key (roles r) admin)) [
      | inl shared ↦
          rw shared (
            λ h. absurd (ground (arith, h)),
            λ h. absurd (h.0 (has_key-some (roles r) admin shared)),
          )
      | inr apart ↦
          rw apart (λ h. (λ e. cc (apart, some-has_key (roles r) admin e), there h), λ h. back h.1)
    ]

-- The key of the role, if it has one, is not among those seen.
abbrev Unseen : RoleKeys → List (String × String) → String → Type 0
Unseen roles seen r = (key : String) → roles r ≡ some key → seen_role key seen ≡ none

Unseen-cons :
    (roles : RoleKeys) (seen : List (String × String)) (r x key : String)
    → roles r ≡ some key
    → Unseen roles ((key, r) ∷ seen) x ↔ Unseen roles seen x × AreApart roles r x
unfolding seen_role
Unseen-cons roles seen r x key e = (
  λ h. (
    λ k f.
        let t = h k f in
        elim (Bool-cases (str_eq key k)) [
          | inl same ↦ absurd (ground (arith, rw same at t))
          | inr other ↦ rw other at t
        ],
    λ (k, f, g).
        let q : key ≡ k = grind (arith, e, f) in
        let t = h k g in
        let same : str_eq key k ≡ true = grind (arith, eq_iff, q) in
        absurd (ground (arith, rw same at t)),
  ),
  λ (old, apart) k f. elim (Bool-cases (str_eq key k)) [
    | inl same ↦ let q : key ≡ k = grind (arith, eq_iff, same) in absurd (apart (key, e, rw q f))
    | inr other ↦ rw other (old k f)
  ],
)

Separate : RoleKeys → List (String × String) → List String → Type 0
Separate roles seen rs = All (Unseen roles seen) rs × Pairwise (AreApart roles) rs

module _ (roles : RoleKeys) (r : String) (rs : List String) (seen : List (String × String))
    (ih : (s : List (String × String))
      → (role_violations roles rs s ≡ []) ↔ Separate roles s rs) where
  none_first : roles r ≡ none → (role_violations roles rs seen ≡ []) ↔ Separate roles seen (r ∷ rs)
  unfolding Separate
  none_first e =
      let (there, back) = ih seen in
      (
        λ h.
            let (old, apart) = there h in
            (((λ k f. cc (e, f)), old), (All-intro _ rs (λ x m (k, f, g). cc (e, f)), apart)),
        λ h. back (h.0.1, h.1.1),
      )

  fresh_first :
      (key : String)
      → roles r ≡ some key
      → seen_role key seen ≡ none
      → (role_violations roles rs ((key, r) ∷ seen) ≡ []) ↔ Separate roles seen (r ∷ rs)
  unfolding Separate
  fresh_first key e fresh =
      let (there, back) = ih ((key, r) ∷ seen) in
      (
        λ h.
            let (all, apart) = there h in
            let split = λ (x : String) (m : In x rs).
              (Unseen-cons roles seen r x key e).0 (All-at _ x rs all m) in
            (
              (
                (λ k f. let q : key ≡ k = grind (arith, e, f) in rw (sym q) fresh),
                All-intro _ rs (λ x m. (split x m).0),
              ),
              (All-intro _ rs (λ x m. (split x m).1), apart),
            ),
        λ (first, others). back (
          All-intro _ rs (λ x m.
              (Unseen-cons roles seen r x key e).1
                (All-at _ x rs first.1 m, All-at _ x rs others.0 m)),
          others.1,
        ),
      )

role_violations-nil :
    (roles : RoleKeys) (rs : List String) (seen : List (String × String))
    → (role_violations roles rs seen ≡ []) ↔ Separate roles seen rs
unfolding role_violations Separate
role_violations-nil roles [] seen = (λ h. (tt, tt), λ h. refl)
role_violations-nil roles (r ∷ rs) seen =
    by_key (roles r) refl (λ s. role_violations-nil roles rs s)
  where
    by_key :
        (o : Option String)
        → roles r ≡ o
        → ((s : List (String × String)) → (role_violations roles rs s ≡ []) ↔ Separate roles s rs)
        → (on_key r o seen (role_violations roles rs) ≡ []) ↔ Separate roles seen (r ∷ rs)
    by_key none e ih = none_first roles r rs seen ih e
    by_key (some key) e ih = by_seen key e ih (seen_role key seen) refl
      where
        by_seen :
            (key : String)
            → roles r ≡ some key
            → ((s : List (String × String))
                → (role_violations roles rs s ≡ []) ↔ Separate roles s rs)
            → (o : Option String) → seen_role key seen ≡ o
            → (on_seen r o
                  (role_violations roles rs ((key, r) ∷ seen))
                  (role_violations roles rs seen)
                ≡ [])
              ↔ Separate roles seen (r ∷ rs)
        by_seen key e ih none fresh = fresh_first roles r rs seen ih key e fresh
        by_seen key e ih (some first) taken =
            (λ h. absurd (ground (arith, h)), λ h. cc (taken, h.0.0 key e))

append-nil_iff : {A : Type 0} (xs ys : List A) → (xs ++ ys ≡ []) ↔ ((xs ≡ []) × (ys ≡ []))
append-nil_iff [] ys = (λ h. (refl, h), λ h. h.1)
append-nil_iff (x ∷ xs) ys = (λ h. absurd (ground (arith, h)), λ h. absurd (ground (arith, h.0)))

-- Whatever key the role has, it is that of nobody seen yet.
nobody_seen : (roles : RoleKeys) (x : String) → Unseen roles [] x
unfolding seen_role
nobody_seen roles x key e = refl

-- The check finds no violation exactly when of the admin and the five operators no two have the same key. A role
-- without a key shares none.
pub key_separation_violations-AreApart :
    (roles : RoleKeys)
    → (key_separation_violations roles ≡ []) ↔ Pairwise (AreApart roles) ("admin" ∷ operator_roles)
unfolding key_separation_violations Separate
key_separation_violations-AreApart roles = by_admin (roles "admin") refl
  where
    by_admin :
        (o : Option String)
        → roles "admin" ≡ o
        → (with_admin roles o ++ role_violations roles operator_roles [] ≡ [])
          ↔ Pairwise (AreApart roles) ("admin" ∷ operator_roles)
    by_admin none e =
        let (there, back) = role_violations-nil roles operator_roles [] in
        (
          λ h. (
            All-intro (AreApart roles "admin") operator_roles (λ x m (k, f, g). cc (e, f)),
            (there h).1,
          ),
          λ h. back (All-intro _ operator_roles (λ x m. nobody_seen roles x), h.1),
        )
    by_admin (some admin) e =
        let (there, back) = role_violations-nil roles operator_roles [] in
        let (apart, shared) = admin_violations-nil roles admin operator_roles in
        let (split, join) =
          append-nil_iff (admin_violations roles admin operator_roles)
            (role_violations roles operator_roles []) in
        (
          λ h. (
            All-intro (AreApart roles "admin") operator_roles (λ x m (k, f, g).
                let q : k ≡ admin = grind (arith, e, f) in
                All-at (λ y. ¬ (roles y ≡ some admin)) x operator_roles (apart (split h).0) m
                  (rw (sym q) g)),
            (there (split h).1).1,
          ),
          λ h. join (
            shared (
                All-intro (λ y. ¬ (roles y ≡ some admin)) operator_roles
                  (λ x m f. All-at (AreApart roles "admin") x operator_roles h.0 m (admin, e, f))),
            back (All-intro _ operator_roles (λ x m. nobody_seen roles x), h.1),
          ),
        )
