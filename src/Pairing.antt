-- ===== src/Pairing.antt =====
-- relay/internal/pairing/pairing.go: the short codes that bind a connector to a box. Texts are lists
-- of character codes, times are nanoseconds; SET NX and GETDEL are a parameter over a state of Redis.
pub mod OneShot
pub mod RoundTrip
use appunvs.Prelude.{
  ℕ, zero, suc, ◌+◌, ◌*◌, ◌/◌, ◌%◌, String, Bool, true, false, Option, none, some, List, [], ◌∷◌,
  ◌++◌, map, take, codes, ◌==◌, nat_eq, ltb, if◌then◌else◌,
}
use appunvs.Prelude.Int.{ℤ, pos, negsuc}

abbrev pub Code : Type 0
Code = List ℕ

pub record Grant : Type 0 where
  pub box_id : String
  pub namespace : String
  pub provider_device_id : String
  pub issued_at : ℕ

-- What a key may hold: the JSON of a grant, or bytes that do not decode to one.
pub data Body : Type 0 where
  grant : Grant → Body
  corrupt : Body

-- The reply of GETDEL: the value, redis.Nil, or an error.
pub data Reply : Type 0 where
  found : Body → Reply
  nil failure : Reply

-- The reply of SET NX: was it set? `none` is an error, after which it may have been.
pub record Redis (R : Type 0) : Type 0 where
  pub set_nx : List ℕ → Body → ℕ → R → Option Bool × R
  pub get_del : List ℕ → R → Reply × R

-- The clock and crypto/rand at each place of a run.
pub record Env : Type 0 where
  pub clock : ℕ → ℕ
  pub random : ℕ → Option (List ℕ)

pub record State (R : Type 0) : Type 0 where
  pub redis : R
  pub place : ℕ

pub data Issued : Type 0 where
  issued : Code → ℕ → Issued
  failed : Issued

pub data Claimed : Type 0 where
  claimed : Grant → Claimed
  not_found failed : Claimed

-- 15 minutes
abbrev pub max_ttl : ℕ
max_ttl = 900_000_000_000

-- "23456789ABCDEFGHJKLMNPQRSTUVWXYZ"
abbrev pub alphabet : List ℕ
alphabet = codes "23456789ABCDEFGHJKLMNPQRSTUVWXYZ"

-- xs[i], within the bounds
unfoldable pub index : List ℕ → ℕ → ℕ
index [] i = 0
index (x ∷ xs) zero = x
index (x ∷ xs) (suc i) = index xs i

-- newCode, from the bytes of rand.Read
unfoldable pub new_code : ℕ → List ℕ → Code
new_code n src = map (λ b. index alphabet (b % 32)) (take n src)

unfoldable pub redis_key : Code → List ℕ
redis_key code = 112 ∷ 97 ∷ 105 ∷ 114 ∷ 58 ∷ code

-- A lifetime that is not positive or too long becomes the longest.
unfoldable pub clamp_ttl : ℤ → ℕ
clamp_ttl (pos ttl) = if ttl == 0 then max_ttl else if ltb max_ttl ttl then max_ttl else ttl
clamp_ttl (negsuc _) = max_ttl

unfoldable pub stamped : Grant → ℕ → Grant
stamped g now = record g { issued_at = now / 1_000_000 }

module _ {R : Type 0} (redis : Redis R) (env : Env) where
  -- How an attempt goes on from the reply to SET NX, where `next` is the next attempt.
  unfoldable pub answered :
      Code → ℕ → (State R → Issued × State R) → ℕ → Option Bool × R → Issued × State R
  answered code ttl next place (none, r) = (Issued.failed, record { redis = r; place = place })
  answered code ttl next place (some true, r) =
      (Issued.issued code (env.clock place + ttl), record { redis = r; place = place + 1 })
  answered code ttl next place (some false, r) = next (record { redis = r; place = place })

  -- The draw of a code, then SET NX.
  unfoldable pub drawn :
      Grant → ℕ → (State R → Issued × State R) → State R → Option (List ℕ) → Issued × State R
  drawn g ttl next s none = (Issued.failed, record s { place = s.place + 1 })
  drawn g ttl next s (some src) =
      let code = new_code 8 src in
      answered code ttl next (s.place + 1)
        (redis.set_nx (redis_key code) (Body.grant g) ttl s.redis)

  -- The loop, for the attempts that are left.
  unfoldable pub attempts : ℕ → Grant → ℕ → State R → Issued × State R
  attempts zero g ttl s = (Issued.failed, s)
  attempts (suc k) g ttl s = drawn g ttl (attempts k g ttl) s (env.random s.place)

  -- Service.Issue
  unfoldable pub issue : Grant → ℤ → State R → Issued × State R
  issue g ttl s =
      if g.issued_at == 0
      then attempts 5 (stamped g (env.clock s.place)) (clamp_ttl ttl)
          (record s { place = s.place + 1 })
      else attempts 5 g (clamp_ttl ttl) s

unfoldable pub decoded : Reply → Claimed
decoded (Reply.found (Body.grant g)) = Claimed.claimed g
decoded (Reply.found Body.corrupt) = Claimed.failed
decoded Reply.nil = Claimed.not_found
decoded Reply.failure = Claimed.failed

-- Service.Claim
unfoldable pub claim : {R : Type 0} → Redis R → Code → State R → Claimed × State R
claim redis code s =
    let (reply, r) = redis.get_del (redis_key code) s.redis in
    (decoded reply, record s { redis = r })
