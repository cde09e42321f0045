-- ===== src/Admin/Privileged.antt =====
-- admin.py: no operation of the administrators takes away the last active owner or admin.
use coreline_auth_module.Common.{
  ◌≡◌, sym, ap, ◌∙◌, String, Bool, true, not, ◌&&◌, some, List, [], ◌∷◌, any, any-sort_by,
  any-select, arith, eq_iff, ◌==◌, inl, inr, Bool-cases, select, sort_by,
}
use coreline_auth_module.Common.Dict
use coreline_auth_module.Common.Dict.{Dict, IsUnique, get-set, set-IsUnique}
use coreline_auth_module.Models.{AuthUser, UserStatus, is_active, eq_status}
use coreline_auth_module.Storage.{Storage, list_users}
use coreline_auth_module.Admin.{is_privileged_role, has_another}

-- The test that decides who counts.
abbrev pub is_live_admin : AuthUser → Bool
is_live_admin u = is_active u.status && is_privileged_role u.role

-- The table of users has each user under its id, and an active owner or admin.
pub record IsAdministered (users : Dict AuthUser) : Type 0 where
  pub unique : IsUnique users
  pub keyed : (k : String) (u : AuthUser) → Dict.get k users ≡ some u → u.id ≡ k
  pub admin : (k : String) × (u : AuthUser) × (Dict.get k users ≡ some u) × (is_live_admin u ≡ true)

-- A value of a dictionary that passes a test stands under a key.
get-any :
    (p : AuthUser → Bool) (d : Dict AuthUser)
    → IsUnique d
    → any p (Dict.values d) ≡ true
    → (k : String) × (u : AuthUser) × (Dict.get k d ≡ some u) × (p u ≡ true)
unfolding Dict.get
get-any p [] v h = absurd (ground arith)
get-any p ((k, u) ∷ d) v h = elim (Bool-cases (p u)) [
  | inl eq ↦ (k, u, ground (arith, eq_iff k k), eq)
  | inr ne ↦
      let (j, x, at, pass) = get-any p d v.1 (ground arith) in
      (j, x, ground (arith, eq_iff k j, v.0), pass)
]

-- The loop finds another active owner or admin exactly if the table has one.
has_another-any :
    (id : String) (s : Storage)
    → has_another id s
      ≡ any
          (λ (u : AuthUser).
            eq_status u.status UserStatus.active && (not (u.id == id) && is_privileged_role u.role))
          (Dict.values s.users)
unfolding has_another list_users
has_another-any id s =
    let sorted : List AuthUser = sort_by (λ (u : AuthUser). u.created_at) (Dict.values s.users) in
    let other : AuthUser → Bool = λ u. not (u.id == id) && is_privileged_role u.role in
    let active : AuthUser → Bool = λ u. eq_status u.status UserStatus.active in
    let all : AuthUser → Bool = λ u. true in
    any-select other all (select active (select all sorted))
    ∙ any-select other active (select all sorted)
    ∙ any-select (λ u. active u && other u) all sorted
    ∙ any-sort_by (λ u. active u && other u) (λ (u : AuthUser). u.created_at) (Dict.values s.users)

-- An entry that counts is there after the user under `k` is replaced by one that counts if `live`.
pub MayReplace : Dict AuthUser → String → Bool → Type 0
MayReplace users k live =
    (j : String) × (u : AuthUser) × (Dict.get j users ≡ some u)
    × (is_live_admin u ≡ true)
    × ((j ≡ k) → live ≡ true)

module _ (users : Dict AuthUser) (v : IsAdministered users) (old new : AuthUser) (k : String)
    (found : Dict.get k users ≡ some old) (same : new.id ≡ old.id) where
  pub replace-IsAdministered :
      MayReplace users k (is_live_admin new) → IsAdministered (Dict.set new.id new users)
  unfolding MayReplace
  replace-IsAdministered (j, u, at, pass, h) = record {
    unique = set-IsUnique new.id new users v.unique;
    keyed = λ i x e. ground (arith, get-set new.id i new users, eq_iff new.id i, v.keyed i x);
    admin = elim (Bool-cases (j == k)) [
      | inl eq ↦ (
        k,
        new,
        ground (arith, get-set new.id k new users, eq_iff new.id k, v.keyed k old found),
        h ((eq_iff j k).0 eq),
      )
      | inr ne ↦ (
        j,
        u,
        ground
            (arith, get-set new.id j new users, eq_iff new.id j, eq_iff j k, v.keyed k old found),
        pass,
      )
    ];
  }

module _ (users : Dict AuthUser) (v : IsAdministered users) (old : AuthUser) (k : String)
    (found : Dict.get k users ≡ some old) where
  -- The one that counts now goes on counting, if the replaced user does not stop to.
  pub keep-MayReplace :
      (live : Bool) → (is_live_admin old ≡ true → live ≡ true) → MayReplace users k live
  unfolding MayReplace
  keep-MayReplace live h =
      let (j, u, at, counts) = v.admin in
      (j, u, at, counts, λ e. h (ground (arith, ap (λ x. Dict.get x users) e)))

-- Another one counts.
pub other-MayReplace :
    (s : Storage) (v : IsAdministered s.users) (old : AuthUser) (live : Bool) (k : String)
    → Dict.get k s.users ≡ some old
    → has_another old.id s ≡ true
    → MayReplace s.users k live
unfolding MayReplace
other-MayReplace s v old live k found h =
    let is_other : AuthUser → Bool = λ u.
      eq_status u.status UserStatus.active && (not (u.id == old.id) && is_privileged_role u.role) in
    let (j, u, at, pass) = get-any is_other s.users v.unique (sym (has_another-any old.id s) ∙ h) in
    let kept : is_other u ≡ true = pass in
    (
      j,
      u,
      at,
      ground (arith, kept),
      λ e. absurd (ground (arith, kept, v.keyed j u at, v.keyed k old found, eq_iff u.id old.id)),
    )
