-- ===== src/Kafka/RebalanceYield.antt =====
-- internal/adapter/kafka/rebalance_yield.go. A context that Bind derives is a number with its parent, and
-- its CancelFunc puts the number among the cancelled ones; every method runs under the mutex.
use variable_star_classifica.Prelude.{
  ℕ, zero, suc, ◌+◌, ◌%◌, ◌^◌, ◌<◌, ◌≡◌, refl, ap, Bool, false, not, ◌||◌, List, [], ◌∷◌, Option,
  none, some, ◌==◌, if◌then◌else◌, arith, All,
}

pub record RebalanceYield : Type 0 where
  pub generation : ℕ  -- uint64
  pub cancel : Option ℕ
  pub cancelled : List ℕ
  pub next_context : ℕ

-- NewRebalanceYield
unfoldable pub new_rebalance_yield : RebalanceYield
new_rebalance_yield = record { generation = 0; cancel = none; cancelled = []; next_context = 0 }

abbrev pub is_cancelled : ℕ → List ℕ → Bool
is_cancelled c [] = false
is_cancelled c (d ∷ ds) = d == c || is_cancelled c ds

abbrev pub call_cancel : Option ℕ → List ℕ → List ℕ
call_cancel none cancelled = cancelled
call_cancel (some c) cancelled = c ∷ cancelled

-- Request
unfoldable pub request : RebalanceYield → RebalanceYield
request y = record y {
  generation = (y.generation + 1) % 2 ^ 64;
  cancelled = call_cancel y.cancel y.cancelled;
}

-- RequestedSince
unfoldable pub requested_since : RebalanceYield → ℕ → Bool
requested_since y generation = not (y.generation == generation)

-- What context.WithCancel makes: the parents are the contexts of the callers, which end on their own.
pub record ProcessingContext : Type 0 where
  pub parent : ℕ
  pub number : ℕ

-- Whether a derived context is done, given the parents that are: it was cancelled, or its parent ended.
unfoldable pub is_done : (ℕ → Bool) → RebalanceYield → ProcessingContext → Bool
is_done ended y c = ended c.parent || is_cancelled c.number y.cancelled

-- Bind: a context derived from the parent, cancelled at once if a request came after the baseline.
unfoldable pub bind : RebalanceYield → ℕ → ℕ → RebalanceYield × ProcessingContext
bind y parent baseline =
    let c = y.next_context in
    let cancelled = if not (y.generation == baseline) then c ∷ y.cancelled else y.cancelled in
    (
      record y { cancel = some c; cancelled = cancelled; next_context = c + 1 },
      record { parent = parent; number = c },
    )

-- The function that Bind returns to release the context.
unfoldable pub release : RebalanceYield → ProcessingContext → RebalanceYield
release y c = record y { cancel = none; cancelled = c.number ∷ y.cancelled }

-- The context of a runner's Run, from which the contexts of its records and batches are derived.
abbrev pub run_context : ℕ
run_context = 0

-- Some requests in a row.
unfoldable pub requests : ℕ → RebalanceYield → RebalanceYield
unfolding request
requests zero y = y
requests (suc n) y = requests n (request y)

-- Contexts are numbered in the order in which they are bound.
abbrev pub IsFresh : RebalanceYield → Type 0
IsFresh y = All (λ c. c < y.next_context) y.cancelled

-- A window of processing: requests before the context is bound, and requests after.
abbrev pub window : RebalanceYield → ℕ → ℕ → ℕ → RebalanceYield × ProcessingContext
window y parent before after =
    let (y', c) = bind (requests before y) parent y.generation in (requests after y', c)

pub generation-requests :
    (n : ℕ) (y : RebalanceYield)
    → y.generation < 2 ^ 64
    → (requests n y).generation ≡ (y.generation + n) % 2 ^ 64
unfolding requests
generation-requests zero y h = omega arith
generation-requests (suc n) y h =
    omega (arith, generation-requests n (request y) (unfold request in omega arith))

cancel-requests : (n : ℕ) (y : RebalanceYield) → (requests n y).cancel ≡ y.cancel
unfolding requests
cancel-requests zero y = refl
cancel-requests (suc n) y = cancel-requests n (request y)

fresh-requests :
    (n : ℕ) (y : RebalanceYield) → y.cancel ≡ none → ((requests n y).cancelled ≡ y.cancelled)
unfolding requests
fresh-requests zero y h = refl
fresh-requests (suc n) y h = ground (arith, fresh-requests n (request y) h)

is_cancelled-fresh : (c : ℕ) (ds : List ℕ) → All (λ d. d < c) ds → is_cancelled c ds ≡ false
is_cancelled-fresh c [] h = refl
is_cancelled-fresh c (d ∷ ds) h = ground (arith, is_cancelled-fresh c ds)

next_context-requests : (n : ℕ) (y : RebalanceYield) → (requests n y).next_context ≡ y.next_context
unfolding requests
next_context-requests zero y = refl
next_context-requests (suc n) y = next_context-requests n (request y)

-- A bound context is cancelled by the next request, and nothing else cancels or saves it.
is_cancelled-requests :
    (n : ℕ) (c : ℕ) (y : RebalanceYield)
    → y.cancel ≡ some c
    → is_cancelled c (requests n y).cancelled ≡ (not (n == 0) || is_cancelled c y.cancelled)
unfolding requests
is_cancelled-requests zero c y h = refl
is_cancelled-requests (suc n) c y h = ground (arith, is_cancelled-requests n c (request y) h)

bind-cancel : (y : RebalanceYield) (p g : ℕ) → (bind y p g).0.cancel ≡ some y.next_context
unfolding bind
bind-cancel y p g = refl

bind-is_cancelled :
    (y : RebalanceYield) (p g : ℕ)
    → IsFresh y
    → is_cancelled y.next_context (bind y p g).0.cancelled ≡ not (y.generation == g)
unfolding bind
bind-is_cancelled y p g h = ground (arith, is_cancelled-fresh y.next_context y.cancelled h)

number-bind : (y : RebalanceYield) (p g : ℕ) → (bind y p g).1.number ≡ y.next_context
unfolding bind
number-bind y p g = refl

parent-bind : (y : RebalanceYield) (p g : ℕ) → (bind y p g).1.parent ≡ p
unfolding bind
parent-bind y p g = refl

bound-is_cancelled :
    (y : RebalanceYield) (p g after : ℕ)
    → IsFresh y
    → is_cancelled (bind y p g).1.number (requests after (bind y p g).0).cancelled
      ≡ (not (after == 0) || not (y.generation == g))
bound-is_cancelled y p g after fresh = ground (
  arith,
  number-bind y p g,
  is_cancelled-requests after y.next_context (bind y p g).0 (bind-cancel y p g),
  bind-is_cancelled y p g fresh,
)

requests-IsFresh :
    (n : ℕ) (y : RebalanceYield) → y.cancel ≡ none → IsFresh y → IsFresh (requests n y)
requests-IsFresh n y idle fresh = rw (fresh-requests n y idle, next_context-requests n y) fresh

generation-bind : (y : RebalanceYield) (p g : ℕ) → (bind y p g).0.generation ≡ y.generation
unfolding bind
generation-bind y p g = refl

-- In a window with fewer than 2^64 requests, the context that Bind derives from a parent is done
-- exactly when the parent has ended or there was a request, whether it came before the context was
-- bound or after it, and RequestedSince says exactly whether there was a request: no wake-up is
-- lost.
pub window-is_done :
    (ended : ℕ → Bool) (y : RebalanceYield) (parent before after : ℕ)
    → y.generation < 2 ^ 64
    → before + after < 2 ^ 64
    → y.cancel ≡ none
    → IsFresh y
    → (is_done ended (window y parent before after).0 (window y parent before after).1
        ≡ (ended parent || not ((before + after) == 0)))
      × (requested_since (window y parent before after).0 y.generation
          ≡ not ((before + after) == 0))
unfolding requested_since is_done
window-is_done ended y parent before after g few idle fresh = (
  ground (
    arith,
    ap ended (parent-bind (requests before y) parent y.generation),
    bound-is_cancelled (requests before y) parent y.generation after
        (requests-IsFresh before y idle fresh),
    generation-requests before y g,
  ),
  ground (
    arith,
    generation-requests after (bind (requests before y) parent y.generation).0,
    generation-bind (requests before y) parent y.generation,
    generation-requests before y g,
  ),
)
