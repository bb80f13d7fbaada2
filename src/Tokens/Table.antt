-- ===== src/Tokens/Table.antt =====
-- The table of refresh tokens under the updates of refresh-tokens.service.ts.
-- No token of the user is live afterwards.
use messageries.Base.{
  Bool, List, String, [], any, arith, count, false, filter, find, refl, some, suc, true,
  update_where, ℕ, ◌==◌, ◌∷◌, ◌≡◌, ◌≢◌, ◌≤◌,
}
use messageries.Entities.Accounts.{RefreshToken}
use messageries.Tokens.{has_hash, live_of, revoke_live, revoke_row}

pub revoke_live-none :
    (now : ℕ) (reason : String) (u : ℕ) (ts : List RefreshToken)
    → any (live_of u) (revoke_live now reason u ts) ≡ false
unfolding revoke_live
revoke_live-none now reason u [] = refl
revoke_live-none now reason u (t ∷ ts) = ground (arith, revoke_live-none now reason u ts)

-- The rows of the other users stay.
pub revoke_live-others :
    (now : ℕ) (reason : String) (u v : ℕ) (ts : List RefreshToken)
    → v ≢ u
    → filter (λ t. t.user_id == v) (revoke_live now reason u ts) ≡ filter (λ t. t.user_id == v) ts
unfolding revoke_live
revoke_live-others now reason u v [] h = refl
revoke_live-others now reason u v (t ∷ ts) h =
    ground (arith, revoke_live-others now reason u v ts h)

-- No two rows have one hash (the column is UNIQUE).
abbrev pub HashesDistinct : List RefreshToken → Type 0
HashesDistinct [] = Unit
HashesDistinct (t ∷ ts) = (any (has_hash t.token_hash) ts ≡ false) × HashesDistinct ts

any-has_hash-update :
    (h : ℕ) (p : RefreshToken → Bool) (now : ℕ) (reason : String) (ts : List RefreshToken)
    → any (has_hash h) (update_where p (revoke_row now reason) ts) ≡ any (has_hash h) ts
any-has_hash-update h p now reason [] = refl
any-has_hash-update h p now reason (t ∷ ts) = ground (arith, any-has_hash-update h p now reason ts)

pub revoke-HashesDistinct :
    (p : RefreshToken → Bool) (now : ℕ) (reason : String) (ts : List RefreshToken)
    → HashesDistinct ts
    → HashesDistinct (update_where p (revoke_row now reason) ts)
revoke-HashesDistinct p now reason [] d = tt
revoke-HashesDistinct p now reason (t ∷ ts) d = ground (
  arith,
  any-has_hash-update t.token_hash p now reason ts,
  revoke-HashesDistinct p now reason ts d.1,
)

count-revoke_le :
    (u now : ℕ) (reason : String) (id : ℕ) (ts : List RefreshToken)
    → count (live_of u) (update_where (λ t. t.id == id) (revoke_row now reason) ts)
      ≤ count (live_of u) ts
count-revoke_le u now reason id [] = omega arith
count-revoke_le u now reason id (t ∷ ts) = ground (arith, count-revoke_le u now reason id ts)

-- Revoking the row that was found lowers the number of the live ones, if it was live.
pub count-revoke_found :
    (u now : ℕ) (reason : String) (h : ℕ) (f : RefreshToken) (ts : List RefreshToken)
    → find (has_hash h) ts ≡ some f
    → live_of u f ≡ true
    → suc (count (live_of u) (update_where (λ t. t.id == f.id) (revoke_row now reason) ts))
      ≤ count (live_of u) ts
count-revoke_found u now reason h f [] e l = absurd (ground arith)
count-revoke_found u now reason h f (t ∷ ts) e l =
    ground (arith, count-revoke_found u now reason h f ts, count-revoke_le u now reason f.id ts)
