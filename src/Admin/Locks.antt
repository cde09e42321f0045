-- ===== src/Admin/Locks.antt =====
-- admin.py: the operations that lock an account out, and the account of the actor.
use coreline_auth_module.Common.{
  ◌≡◌, refl, sym, ap, ◌∙◌, String, Bool, true, false, Option, some, none, arith, ◌==◌,
}
use coreline_auth_module.Errors.{ok-injective, authorization_denied, Error, ok}
use coreline_auth_module.Host.{Host}
use coreline_auth_module.Models.{AuthUser, UserStatus, Principal}
use coreline_auth_module.World.{World, Action, ◌>>=◌, ◌>>◌}
use coreline_auth_module.World.Actions.{pure, fail_if, now_utc}
use coreline_auth_module.World.Outcomes.{bind-eq_returned}
use coreline_auth_module.Service.Config.{Service}
use coreline_auth_module.Service.Support.{require_user}
use coreline_auth_module.Service.Accounts.{revoke_all}
use coreline_auth_module.Service.Sessions.{verify_session}
use coreline_auth_module.Admin.{ban_user, disable_user, guard_lock, write_status}

pub data Lock : Type 0 where
  ban disable : Lock

abbrev pub permission_of : Lock → String
permission_of ban = "users:ban"
permission_of disable = "users:write"

fail_if-eq_returned :
    (b : Bool) (e : Error) (w : World) (u : Unit {0}) → (fail_if b e w).0 ≡ ok u → b ≡ false
fail_if-eq_returned true e w u h = absurd (ground (arith, h))
fail_if-eq_returned false e w u h = refl

-- The last action of a sequence returns its value.
pure-eq_returned :
    (m : Action (Unit {0})) (a b : AuthUser) (w w' : World) → (m >> pure a) w ≡ (ok b, w') → a ≡ b
pure-eq_returned m a b w w' h =
    let (_, _, e) = bind-eq_returned m (λ _. pure a) w w' b h in ok-injective a b (ap (λ x. x.0) e)

module _ (host : Host) (svc : Service) where
  unfoldable pub lock_user : Lock → String → String → Option String → Action AuthUser
  unfolding ban_user disable_user
  lock_user ban = ban_user host svc
  lock_user disable = disable_user host svc

  guard_lock-other :
      (actor : Principal) (user : AuthUser) (message : String) (w w' : World)
      → guard_lock host svc actor user message w ≡ (ok tt, w')
      → (user.id == actor.user.id) ≡ false
  unfolding guard_lock
  guard_lock-other actor user message w w' h =
      let refused = user.id == actor.user.id in
      let (u, e, _) =
        bind-eq_returned (fail_if refused (authorization_denied message)) _ w w' tt h in
      fail_if-eq_returned refused (authorization_denied message) w u e

  write_status-id :
      (user updated : AuthUser) (status : UserStatus) (w w' : World)
      → write_status host svc user status w ≡ (ok updated, w')
      → updated.id ≡ user.id
  unfolding write_status
  write_status-id user updated status w w' h =
      let (t, _, h1) = bind-eq_returned (now_utc host) _ w w' updated h in
      ap (λ u. u.id)
        (sym (
          pure-eq_returned _ (record user { status = status; updated_at = t }) updated
            (now_utc host w).1 w' h1))

  -- What both operations begin with, and the account that they have written then.
  begun :
      (permission token user_id message : String) (status : UserStatus)
      (rest : Principal → AuthUser → AuthUser → Action AuthUser) (w w' : World) (updated : AuthUser)
      → (verify_session host svc token (some permission) >>= λ p.
            require_user host svc user_id >>= λ user. guard_lock host svc p user message >>= λ _.
            write_status host svc user status >>= rest p user)
          w
        ≡ (ok updated, w')
      → (p : Principal) × ((verify_session host svc token (some permission) w).0 ≡ ok p)
        × (user : AuthUser) × (written : AuthUser) × (w1 : World) × ((written.id == p.user.id)
            ≡ false)
        × (rest p user written w1 ≡ (ok updated, w'))
  begun permission token user_id message status rest w w' updated h =
      let verify = verify_session host svc token (some permission) in
      let find = require_user host svc user_id in
      let (p, ep, h1) = bind-eq_returned verify _ w w' updated h in
      let (user, _, h2) = bind-eq_returned find _ (verify w).1 w' updated h1 in
      let w2 = (find (verify w).1).1 in
      let guard = guard_lock host svc p user message in
      let (_, eg, h3) = bind-eq_returned guard _ w2 w' updated h2 in
      let w3 = (guard w2).1 in
      let write = write_status host svc user status in
      let (written, ew, h4) = bind-eq_returned write (rest p user) w3 w' updated h3 in
      let w4 = (write w3).1 in
      let other = guard_lock-other p user message w2 w3 (λ i. (eg i, w3)) in
      let id = write_status-id user written status w3 w4 (λ i. (ew i, w4)) in
      (p, ep, user, written, w4, ap (λ x. x == p.user.id) id ∙ other, h4)

-- When `ban_user` or `disable_user` returns an account, it is not that of the administrator whose
-- session the token leads to, and `verify_session` has accepted the token with the permission that
-- the operation needs.
pub lock_user-other :
    (host : Host) (svc : Service) (l : Lock) (token user_id : String) (reason : Option String)
    (w w' : World) (updated : AuthUser)
    → lock_user host svc l token user_id reason w ≡ (ok updated, w')
    → (p : Principal) × ((verify_session host svc token (some (permission_of l)) w).0 ≡ ok p)
      × ((updated.id == p.user.id) ≡ false)
unfolding lock_user ban_user disable_user
lock_user-other host svc ban token user_id reason w w' updated h =
    let (p, ep, user, written, w1, other, h1) =
      begun host svc "users:ban" token user_id "admins cannot ban their own account"
        UserStatus.banned _ w w' updated h in
    let same = pure-eq_returned _ written updated w1 w' h1 in
    (p, ep, ap (λ u. u.id == p.user.id) (sym same) ∙ other)
lock_user-other host svc disable token user_id reason w w' updated h =
    let (p, ep, user, written, w1, other, h1) =
      begun host svc "users:write" token user_id "admins cannot disable their own account"
        UserStatus.disabled _ w w' updated h in
    let ending = revoke_all host svc user.id none in
    let (_, _, h2) = bind-eq_returned ending _ w1 w' updated h1 in
    let same = pure-eq_returned _ written updated (ending w1).1 w' h2 in
    (p, ep, ap (λ u. u.id == p.user.id) (sym same) ∙ other)
