-- ===== src/Pairing/OneShot.antt =====
-- Codes of relay/internal/pairing/pairing.go: what is issued is claimed, and only once.
use appunvs.Prelude.{
  ℕ, zero, suc, ◌+◌, ◌≡◌, ◌≢◌, refl, ◌∙◌, Bool, true, false, Option, none, some, List, ◌==◌, nat_eq,
  arith, ◌⊎◌, inl, inr, Bool-cases,
}
use appunvs.Prelude.Int.{ℤ}
use appunvs.Pairing.{
  Code, Grant, Body, Reply, Redis, Env, State, Issued, Claimed, new_code, redis_key, clamp_ttl,
  stamped, answered, drawn, attempts, issue, decoded, claim,
}

-- What the documentation of Redis says: SET NX sets a key that holds nothing, GETDEL answers with
-- what a key holds and removes it, and neither touches another key, which may expire meanwhile.
pub record Documented {R : Type 0} (redis : Redis R) : Type 0 where
  pub held : List ℕ → R → Option Body
  pub set_nx_sets :
      (key : List ℕ) (b : Body) (ttl : ℕ) (r r' : R)
      → redis.set_nx key b ttl r ≡ (some true, r')
      → (held key r ≡ none) × (held key r' ≡ some b)
  pub set_nx_other :
      (key other : List ℕ) (b : Body) (ttl : ℕ) (r : R)
      → other ≢ key
      → (held other (redis.set_nx key b ttl r).1 ≡ held other r)
        ⊎ (held other (redis.set_nx key b ttl r).1 ≡ none)
  pub get_del_found :
      (key : List ℕ) (b : Body) (r r' : R)
      → redis.get_del key r ≡ (Reply.found b, r')
      → (held key r ≡ some b) × (held key r' ≡ none)
  pub get_del_nil :
      (key : List ℕ) (r r' : R) → redis.get_del key r ≡ (Reply.nil, r') → held key r ≡ none
  pub get_del_keeps :
      (key other : List ℕ) (r : R)
      → (held other (redis.get_del key r).1 ≡ held other r)
        ⊎ (held other (redis.get_del key r).1 ≡ none)

redis_key_injective : (a b : Code) → redis_key a ≡ redis_key b → a ≡ b
unfolding redis_key
redis_key_injective a b h = cc

Claimed-cases :
    (x : Claimed)
    → ((x ≡ Claimed.not_found) ⊎ (x ≡ Claimed.failed)) ⊎ ((g : Grant) × (x ≡ Claimed.claimed g))
Claimed-cases (Claimed.claimed g) = inr (g, refl)
Claimed-cases Claimed.not_found = inl (inl refl)
Claimed-cases Claimed.failed = inl (inr refl)

module _ {R : Type 0} (redis : Redis R) (doc : Documented redis) where
  -- No run draws this code.
  abbrev Undrawn : Code → Env → Type 0
  Undrawn code env =
      (place : ℕ) (src : List ℕ) → env.random place ≡ some src → code ≢ new_code 8 src

  -- What others may do to a code's key between two claims of it: any claims, of this code too, codes
  -- issued under other draws, and keys that expire.
  pub data Meanwhile (code : Code) : State R → State R → Type 0 where
    done : (s : State R) → Meanwhile code s s
    claims :
        (other : Code) (s : State R) {t : State R}
        → Meanwhile code (claim redis other s).1 t
        → Meanwhile code s t
    issues :
        (env : Env) (g : Grant) (ttl : ℤ) (s : State R) {t : State R}
        → Undrawn code env
        → Meanwhile code (issue redis env g ttl s).1 t
        → Meanwhile code s t
    expires :
        (s s' : State R) {t : State R}
        → ((key : List ℕ)
            → (doc.held key s'.redis ≡ doc.held key s.redis) ⊎ (doc.held key s'.redis ≡ none))
        → Meanwhile code s' t
        → Meanwhile code s t

  abbrev Free : Code → State R → Type 0
  Free code s = doc.held (redis_key code) s.redis ≡ none

  still_none : {x y : Option Body} → (y ≡ x) ⊎ (y ≡ none) → x ≡ none → y ≡ none
  still_none (inl e) n = e ∙ n
  still_none (inr e) n = e

  module _ (code : Code) (env : Env) (next : State R → Issued × State R) where
    answered-Free :
        (next_frees : (s : State R) → Free code s → Free code (next s).1) (c : Code) (ttl place : ℕ)
        (x : Option Bool × R)
        → doc.held (redis_key code) x.1 ≡ none
        → Free code (answered redis env c ttl next place x).1
    unfolding answered
    answered-Free next_frees c ttl place (none, r) h = h
    answered-Free next_frees c ttl place (some true, r) h = h
    answered-Free next_frees c ttl place (some false, r) h =
        next_frees (record { redis = r; place = place }) h

    drawn-Free :
        (next_frees : (s : State R) → Free code s → Free code (next s).1) (g : Grant) (ttl : ℕ)
        (s : State R) (x : Option (List ℕ))
        → ((src : List ℕ) → x ≡ some src → code ≢ new_code 8 src)
        → Free code s
        → Free code (drawn redis env g ttl next s x).1
    unfolding drawn
    drawn-Free next_frees g ttl s none other free = free
    drawn-Free next_frees g ttl s (some src) other free =
        let c = new_code 8 src in
        let apart : redis_key code ≢ redis_key c =
          λ h. other src refl (redis_key_injective code c h) in
        answered-Free next_frees c ttl (s.place + 1)
          (redis.set_nx (redis_key c) (Body.grant g) ttl s.redis)
          (still_none
            (doc.set_nx_other (redis_key c) (redis_key code) (Body.grant g) ttl s.redis apart) free)

  attempts-Free :
      (code : Code) (env : Env) (k : ℕ) (g : Grant) (ttl : ℕ) (s : State R)
      → Undrawn code env
      → Free code s
      → Free code (attempts redis env k g ttl s).1
  unfolding attempts
  attempts-Free code env zero g ttl s other free = free
  attempts-Free code env (suc k) g ttl s other free =
      drawn-Free code env (attempts redis env k g ttl) (λ t. attempts-Free code env k g ttl t other)
        g ttl s (env.random s.place) (other s.place) free

  issue-Free :
      (code : Code) (env : Env) (g : Grant) (ttl : ℤ) (s : State R)
      → Undrawn code env
      → Free code s
      → Free code (issue redis env g ttl s).1
  unfolding issue
  issue-Free code env g ttl s other free = elim (Bool-cases (g.issued_at == 0)) [
    | inl e ↦ rw e (
        attempts-Free code env 5 (stamped g (env.clock s.place)) (clamp_ttl ttl)
          (record s { place = s.place + 1 }) other free)
    | inr e ↦ rw e (attempts-Free code env 5 g (clamp_ttl ttl) s other free)
  ]

  claim-Free : (code other : Code) (s : State R) → Free code s → Free code (claim redis other s).1
  unfolding claim
  claim-Free code other s free =
      still_none (doc.get_del_keeps (redis_key other) (redis_key code) s.redis) free

  Meanwhile-Free : (code : Code) {s t : State R} → Meanwhile code s t → Free code s → Free code t
  Meanwhile-Free code (Meanwhile.done s) free = free
  Meanwhile-Free code (Meanwhile.claims other s rest) free =
      Meanwhile-Free code rest (claim-Free code other s free)
  Meanwhile-Free code (Meanwhile.issues env g ttl s other rest) free =
      Meanwhile-Free code rest (issue-Free code env g ttl s other free)
  Meanwhile-Free code (Meanwhile.expires s s' gone rest) free =
      Meanwhile-Free code rest (still_none (gone (redis_key code)) free)

  -- A claim that answers with a grant had it from the key.
  claim-found :
      (code : Code) (g : Grant) (s s' : State R)
      → claim redis code s ≡ (Claimed.claimed g, s')
      → redis.get_del (redis_key code) s.redis ≡ (Reply.found (Body.grant g), s'.redis)
  unfolding claim decoded
  claim-found code g s s' h = ground arith

  claim_frees :
      (code : Code) (g : Grant) (s s' : State R)
      → claim redis code s ≡ (Claimed.claimed g, s')
      → Free code s'
  claim_frees code g s s' h =
      let (_, free) =
        doc.get_del_found (redis_key code) (Body.grant g) s.redis s'.redis
          (claim-found code g s s' h) in
      free

  -- A code that was claimed is not claimed again, whatever happens in between, as long as nobody
  -- draws it anew: a later claim fails or finds nothing.
  pub claim_once :
      (code : Code) (g : Grant) (s s' t : State R)
      → claim redis code s ≡ (Claimed.claimed g, s')
      → Meanwhile code s' t
      → ((claim redis code t).0 ≡ Claimed.not_found) ⊎ ((claim redis code t).0 ≡ Claimed.failed)
  claim_once code g s s' t first between =
      let free = Meanwhile-Free code between (claim_frees code g s s' first) in
      elim (Claimed-cases (claim redis code t).0) [
        | inl e ↦ e
        | inr (g', e) ↦
            let t' = (claim redis code t).1 in
            let x : claim redis code t ≡ (Claimed.claimed g', t') = ground (arith, e) in
            let (had, _) =
              doc.get_del_found (redis_key code) (Body.grant g') t.redis t'.redis
                (claim-found code g' t t' x) in
            absurd (ground (arith, free, had))
      ]
