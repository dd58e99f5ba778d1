-- ===== src/EventBus/Sockets.antt =====
-- The sets of sockets of runtime/event_bus.py, as lists without repetition, and the dictionary of
-- sets by session.
use agent_v.Prelude.{
  ℕ, ◌≡◌, refl, Bool, ◌||◌, not, ◌&&◌, List, [], ◌∷◌, ◌++◌, arith, ◌==◌, any, if◌then◌else◌,
}

abbrev pub member : ℕ → List ℕ → Bool
member w ws = any (λ x. x == w) ws

-- `sockets.add(w)`
unfoldable pub add : ℕ → List ℕ → List ℕ
add w ws = if member w ws then ws else ws ++ w ∷ []

-- `sockets.discard(w)`
unfoldable pub discard : ℕ → List ℕ → List ℕ
discard w [] = []
discard w (x ∷ xs) = let rest = discard w xs in if x == w then rest else x ∷ rest

-- `targets.update(ws)`
unfoldable pub union : List ℕ → List ℕ → List ℕ
unfolding add
union vs [] = vs
union vs (w ∷ ws) = union (add w vs) ws

-- `_session_subscribers.get(session_id, set())`
unfoldable pub sockets_of : ℕ → List (ℕ × List ℕ) → List ℕ
sockets_of session_id [] = []
sockets_of session_id ((s, ws) ∷ rest) = if s == session_id then ws else sockets_of session_id rest

-- `_session_subscribers[session_id]` of a `defaultdict(set)`, changed in place
unfoldable pub update : (List ℕ → List ℕ) → ℕ → List (ℕ × List ℕ) → List (ℕ × List ℕ)
update change session_id [] = (session_id, change []) ∷ []
update change session_id ((s, ws) ∷ rest) =
    if s == session_id then (s, change ws) ∷ rest else (s, ws) ∷ update change session_id rest

-- `for subscribers in _session_subscribers.values(): subscribers.discard(w)`
unfoldable pub discard_all : ℕ → List (ℕ × List ℕ) → List (ℕ × List ℕ)
discard_all w [] = []
discard_all w ((s, ws) ∷ rest) = (s, discard w ws) ∷ discard_all w rest

pub member-append : (w : ℕ) (xs ys : List ℕ) → member w (xs ++ ys) ≡ (member w xs || member w ys)
member-append w [] ys = refl
member-append w (x ∷ xs) ys = ground (arith, member-append w xs ys)

pub member-add : (w v : ℕ) (xs : List ℕ) → member w (add v xs) ≡ (v == w || member w xs)
unfolding add
member-add w v xs = ground (arith, member-append w xs (v ∷ []))

pub member-discard :
    (w v : ℕ) (xs : List ℕ) → member w (discard v xs) ≡ (not (v == w) && member w xs)
unfolding discard
member-discard w v [] = ground arith
member-discard w v (x ∷ xs) = ground (arith, member-discard w v xs)

pub member-union : (w : ℕ) (xs ys : List ℕ) → member w (union xs ys) ≡ (member w xs || member w ys)
unfolding union
member-union w xs [] = ground arith
member-union w xs (y ∷ ys) = ground (arith, member-union w (add y xs) ys, member-add w y xs)

pub sockets_of-update :
    (change : List ℕ → List ℕ) (s t : ℕ) (subs : List (ℕ × List ℕ))
    → sockets_of t (update change s subs)
      ≡ (if s == t then change (sockets_of s subs) else sockets_of t subs)
unfolding sockets_of update
sockets_of-update change s t [] = ground arith
sockets_of-update change s t ((r, ws) ∷ subs) = ground (arith, sockets_of-update change s t subs)

pub sockets_of-discard_all :
    (w s : ℕ) (subs : List (ℕ × List ℕ))
    → sockets_of s (discard_all w subs) ≡ discard w (sockets_of s subs)
unfolding sockets_of discard_all discard
sockets_of-discard_all w s [] = refl
sockets_of-discard_all w s ((r, ws) ∷ subs) = ground (arith, sockets_of-discard_all w s subs)
