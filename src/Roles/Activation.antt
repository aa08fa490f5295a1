-- ===== src/Roles/Activation.antt =====
-- activateRoles of pkg/sendspin/server.go against a description by families.
use sendspin_go.Prelude.{
  ◌≡◌, refl, inl, inr, none, some, ap, ◌∙◌, Bool, true, ◌&&◌, not, List, [], ◌∷◌, ◌++◌, arith,
  if◌then◌else◌,
}
use sendspin_go.Prelude.Text.{String, str_eq, eq_iff}
use sendspin_go.Prelude.Before.{before, find?-before, len-positive}
use sendspin_go.Roles.{family, member, activate_loop, activate_roles}

abbrev pub filter : (String → Bool) → List String → List String
filter p [] = []
filter p (r ∷ rs) = if p r then r ∷ filter p rs else filter p rs

-- A role is its family, or its family, "@" and a version.
abbrev pub family_of : String → String
family_of role = elim (before "@" role) [ none ↦ role | some u ↦ if str_eq u "" then role else u ]

family_lem : (role : String) → family role ≡ family_of role
unfolding family
family_lem role = elim (find?-before "@" role refl) [
  | inl (u, b, f, e) ↦ ground (arith, b, f, e, len-positive u)
  | inr (b, f) ↦ ground (arith, b, f)
]

-- Of the roles of one family, only the first.
abbrev pub first_versions : (String → String) → List String → List String
first_versions family [] = []
first_versions family (r ∷ rs) =
    r ∷ filter (λ s. not (str_eq (family r) (family s))) (first_versions family rs)

abbrev pub unseen : List String → String → Bool
unseen seen r = not (member seen (family r))

filter-filter :
    (p q s : String → Bool) (rs : List String)
    → ((r : String) → (p r && q r) ≡ s r)
    → filter p (filter q rs) ≡ filter s rs
filter-filter p q s [] e = refl
filter-filter p q s (r ∷ rs) e = ground (arith, filter-filter p q s rs e, e r)

unseen-cons :
    (f : String) (seen : List String) (r : String)
    → (unseen seen r && not (str_eq f (family r))) ≡ unseen (f ∷ seen) r
unfolding member
unseen-cons f seen r = ground arith

unseen-same :
    (seen : List String) (r s : String)
    → member seen (family r) ≡ true
    → (unseen seen s && not (str_eq (family r) (family s))) ≡ unseen seen s
unseen-same seen r s h = ground (arith, eq_iff (family r) (family s), ap (member seen))

-- The roles whose family is allowed.
abbrev pub allowed_roles : (String → String) → List String → List String → List String
allowed_roles family allowed rs = filter (λ r. member allowed (family r)) rs

activate_loop_lem :
    (allowed seen rs : List String)
    → activate_loop allowed seen rs
      ≡ filter (unseen seen) (first_versions family (allowed_roles family allowed rs))
unfolding activate_loop
activate_loop_lem allowed seen [] = refl
activate_loop_lem allowed seen (r ∷ rs) =
    let later = first_versions family (allowed_roles family allowed rs) in
    let other : String → Bool = λ s. not (str_eq (family r) (family s)) in
    ground (
      arith,
      activate_loop_lem allowed seen rs,
      activate_loop_lem allowed (family r ∷ seen) rs,
      filter-filter (unseen seen) other (unseen (family r ∷ seen)) later
          (unseen-cons (family r) seen),
      λ (h : member seen (family r) ≡ true).
          filter-filter (unseen seen) other (unseen seen) later (λ s. unseen-same seen r s h),
    )

filter-all : (p : String → Bool) (rs : List String) → ((r : String) → p r ≡ true) → filter p rs ≡ rs
filter-all p [] h = refl
filter-all p (r ∷ rs) h = ground (arith, filter-all p rs h, h r)

-- A client's active roles are those of its roles whose family is configured or registered, and of
-- each family only the first, in the order of the client's list. The family of a role is its text
-- before the first "@"; a role without one, or that starts with one, is its own family.
pub activate_roles_lem :
    (configured registered supported : List String)
    → activate_roles configured registered supported
      ≡ first_versions family_of (allowed_roles family_of (configured ++ registered) supported)
unfolding activate_roles member
activate_roles_lem configured registered supported =
    activate_loop_lem (configured ++ registered) [] supported
    ∙ filter-all (unseen []) _ (λ r. refl)
    ∙ ap (λ f. first_versions f (allowed_roles f (configured ++ registered) supported))
        (λ i r. family_lem r i)
