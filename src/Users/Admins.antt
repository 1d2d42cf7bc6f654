-- ===== src/Users/Admins.antt =====
-- There is always an administrator (internal/store/sqlite/user.go).
use duskrun.Base.{
  if-keeps, ℕ, suc, ◌≡◌, ◌∙◌, refl, String, Bool, true, ◌&&◌, not, Option, none, some, List, [],
  ◌∷◌, any, Distinct, arith, Bool-cases, Option-cases, inl, inr, str_eq,
}
use duskrun.Queue.Rows.{Distinct-append_one}
use duskrun.Model.{Role}
use duskrun.Users.Rows.{
  has_admin, is_last_admin-eq, others_stay, others_remain, others_of, now_admin, user_ids-update,
  Distinct-without, contains-above_users, user_ids-append, has_admin-append, same_admins,
}
use duskrun.Access.{is_admin}
use duskrun.Users.{
  Account, Accounts, user_ids, get_user, is_enabled_admin, is_last_admin, create_user,
  update_found_user, update_user, delete_found_user, delete_user, set_user_password, edited,
  loses_admin, max_user,
}

-- Ids are unique and somebody administers.
pub record IsAdministered (a : Accounts) : Type 0 where
  pub distinct : Distinct (user_ids a.users)
  pub admin : has_admin a.users ≡ true

create_user-IsAdministered :
    (email name : String) (role : Role) (hash : String) (disabled : Bool) (a : Accounts)
    → IsAdministered a
    → IsAdministered (create_user email name role hash disabled a).1
unfolding create_user
create_user-IsAdministered email name role hash disabled a v =
    if-keeps (λ (x : _ × Accounts). IsAdministered x.1) (any (λ u. str_eq u.email email) a.users) v
      (record {
        distinct = rw (user_ids-append a.users _) (
            Distinct-append_one (user_ids a.users) (suc (max_user a.users))
              (contains-above_users _ a.users (omega arith)) v.distinct);
        admin = has_admin-append a.users _ v.admin;
      })

update_found_user-IsAdministered :
    (i : ℕ) (name : String) (role : Role) (disabled : Bool) (a : Accounts) (found : Option Account)
    → get_user i a.users ≡ found
    → IsAdministered a
    → IsAdministered (update_found_user i name role disabled a found).1
unfolding update_found_user
update_found_user-IsAdministered i name role disabled a none e v = v
update_found_user-IsAdministered i name role disabled a (some cur) e v =
    elim (Bool-cases (loses_admin cur role disabled && is_last_admin i a.users)) [
      | inl k ↦ rw k v
      | inr k ↦ rw k (record {
        distinct =
            rw (user_ids-update i (edited name role disabled) a.users (λ u. refl)) v.distinct;
        admin = elim (Bool-cases (is_enabled_admin cur)) [
          | inr n ↦ others_stay i _ a.users (others_of i cur a.users v.distinct e n v.admin)
          | inl n ↦ elim (Bool-cases (is_admin role && not disabled)) [
            | inl m ↦ now_admin i _ cur a.users e (λ u. m)
            | inr m ↦ others_stay i _ a.users (ground (arith, k, n, m, is_last_admin-eq i a.users))
          ]
        ];
      })
    ]

delete_found_user-IsAdministered :
    (i : ℕ) (a : Accounts) (found : Option Account)
    → get_user i a.users ≡ found
    → IsAdministered a
    → IsAdministered (delete_found_user i a found).1
unfolding delete_found_user
delete_found_user-IsAdministered i a none e v = v
delete_found_user-IsAdministered i a (some cur) e v =
    elim (Bool-cases (is_enabled_admin cur && is_last_admin i a.users)) [
      | inl k ↦ rw k v
      | inr k ↦ rw k (record {
        distinct = Distinct-without i a.users v.distinct;
        admin = others_remain i a.users (elim (Bool-cases (is_enabled_admin cur)) [
          | inr n ↦ others_of i cur a.users v.distinct e n v.admin
          | inl n ↦ ground (arith, k, n, is_last_admin-eq i a.users)
        ]);
      })
    ]

set_user_password-IsAdministered :
    (i : ℕ) (hash : String) (keep : ℕ) (a : Accounts)
    → IsAdministered a
    → IsAdministered (set_user_password i hash keep a).1
unfolding set_user_password
set_user_password-IsAdministered i hash keep a v = elim (Option-cases (get_user i a.users)) [
  | inl e ↦ rw (set_user_password, e) v
  | inr (u, e) ↦
      rw (set_user_password, e)
        (record {
          distinct =
              rw (user_ids-update i (λ w. record w { password_hash = hash }) a.users (λ w. refl))
                v.distinct;
          admin =
              same_admins i (λ w. record w { password_hash = hash }) a.users (λ w. refl) ∙ v.admin;
        })
]

-- The operations on accounts, as requests and the command line issue them.
pub data Operation : Type 0 where
  creates : (email name : String) (role : Role) (hash : String) (disabled : Bool) → Operation
  updates : (id : ℕ) (name : String) (role : Role) (disabled : Bool) → Operation
  deletes : (id : ℕ) → Operation
  sets_password : (id : ℕ) (hash : String) (keep : ℕ) → Operation

pub apply : Accounts → Operation → Accounts
apply a (creates email name role hash disabled) = (create_user email name role hash disabled a).1
apply a (updates id name role disabled) = (update_user id name role disabled a).1
apply a (deletes id) = (delete_user id a).1
apply a (sets_password id hash keep) = (set_user_password id hash keep a).1

unfoldable pub apply_all : Accounts → List Operation → Accounts
unfolding apply
apply_all a [] = a
apply_all a (o ∷ os) = apply_all (apply a o) os

apply-IsAdministered :
    (a : Accounts) (o : Operation) → IsAdministered a → IsAdministered (apply a o)
unfolding apply update_user delete_user
apply-IsAdministered a (creates email name role hash disabled) v =
    create_user-IsAdministered email name role hash disabled a v
apply-IsAdministered a (updates id name role disabled) v =
    update_found_user-IsAdministered id name role disabled a (get_user id a.users) refl v
apply-IsAdministered a (deletes id) v =
    delete_found_user-IsAdministered id a (get_user id a.users) refl v
apply-IsAdministered a (sets_password id hash keep) v =
    set_user_password-IsAdministered id hash keep a v

-- Nobody can lock everybody out: once ids are unique and there is an enabled administrator, every
-- sequence of account operations leaves one.
pub apply_all-IsAdministered :
    (a : Accounts) (os : List Operation) → IsAdministered a → IsAdministered (apply_all a os)
unfolding apply_all
apply_all-IsAdministered a [] v = v
apply_all-IsAdministered a (o ∷ os) v =
    apply_all-IsAdministered (apply a o) os (apply-IsAdministered a o v)
