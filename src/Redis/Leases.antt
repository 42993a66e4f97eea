-- ===== src/Redis/Leases.antt =====
-- redis_bus.py and lua/extend_lease.lua: what becomes of a lease that is set and then extended.
use atmcp.Base.{
  ℕ, ◌+◌, ◌*◌, String, ◌≡◌, refl, ap, Bool, true, none, some, List, [], ◌∷◌, arith, Bool-cases, inl,
  inr, ltb, ◌==◌, ◌&&◌, eq_iff, if◌then◌else◌,
}
use atmcp.Base.Table.{fetch_one, update, delete, insert}
use atmcp.Redis.{
  Redis, Lease, extended, absent, other_holder, is_lease, script, set_lease, extend_lease,
}

module _ {R : Type 0} (q : R → Bool) (x : R) (qx : q x ≡ true) where
  update-replaced :
      (f : R → R) (rs : List R) → update q f (insert x (delete q rs)) ≡ insert (f x) (delete q rs)
  update-replaced f [] = rw qx refl
  update-replaced f (r ∷ rs) = elim (Bool-cases (q r)) [
    | inl e ↦ rw e (update-replaced f rs)
    | inr e ↦ rw e (rw e (ap (λ l. r ∷ l) (update-replaced f rs)))
  ]

  delete-replaced : (rs : List R) → delete q (insert x (delete q rs)) ≡ delete q rs
  delete-replaced [] = rw qx refl
  delete-replaced (r ∷ rs) = elim (Bool-cases (q r)) [
    | inl e ↦ rw e (delete-replaced rs)
    | inr e ↦ rw e (rw e (ap (λ l. r ∷ l) (delete-replaced rs)))
  ]

  fetch_one-replaced :
      (live : R → Bool) (rs : List R)
      → fetch_one (λ r. q r && live r) (insert x (delete q rs)) ≡ (if live x then some x else none)
  fetch_one-replaced live [] = rw qx refl
  fetch_one-replaced live (r ∷ rs) = elim (Bool-cases (q r)) [
    | inl e ↦ rw e (fetch_one-replaced live rs)
    | inr e ↦ rw e (rw e (fetch_one-replaced live rs))
  ]

-- While Redis is up, an attempt to extend a lease after an agent took it acts as follows. After the
-- lease has run out there is none. Before that, another agent is refused and nothing changes, and
-- for the agent itself the lease becomes the one that it would take at that time with the new length,
-- under the fencing token that it has.
pub extend_lease-set_lease :
    (now later : ℕ) (team task agent who : String) (token ttl ttl' : ℕ) (r : Redis)
    → r.up ≡ true
    → let held = set_lease now team task agent token ttl r in
      extend_lease later team task who ttl' held ≡ (
        if ltb later (now + ttl * 1000)
        then if agent == who
          then (extended, set_lease later team task agent token ttl' held)
          else (other_holder, held)
        else (absent, held))
unfolding set_lease extend_lease script
extend_lease-set_lease now later team task agent who token ttl ttl' r up =
    let x : Lease = record {
      team = team;
      task = task;
      agent_id = agent;
      fencing_token = token;
      expires_at = now + ttl * 1000;
    } in
    let mine : is_lease team task x ≡ true = ground (arith, eq_iff team team, eq_iff task task) in
    let found =
      fetch_one-replaced (is_lease team task) x mine (λ l. ltb later l.expires_at) r.leases in
    let moved =
      update-replaced (is_lease team task) x mine
        (λ l. record l { expires_at = later + ttl' * 1000 }) r.leases in
    let alone = delete-replaced (is_lease team task) x mine r.leases in
    elim (Bool-cases (ltb later (now + ttl * 1000))) [
      | inr e ↦ rw (up, found, e) refl
      | inl e ↦ elim (Bool-cases (agent == who)) [
        | inr k ↦ rw (up, found, e, k) refl
        | inl k ↦ rw (up, found, e, k, moved, alone) refl
      ]
    ]
