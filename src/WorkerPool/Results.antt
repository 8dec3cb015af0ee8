-- ===== src/WorkerPool/Results.antt =====
-- `WorkerPool::WorkerLoop` of src/network/worker_pool.cpp: what the result of an item should be.
use pulse_core.Base.{ℕ, ◌≡◌, refl, Option, none, some, List, [], ◌∷◌, ◌++◌}
use pulse_core.Codec.{Message, error_response}
use pulse_core.Handler.{respond_error}
use pulse_core.WorkerPool.{
  worker_handler_error_response, response_of, WorkItem, WorkResult, WorkHandler, work,
}

-- "worker handler failed", in ASCII.
abbrev pub worker_handler_failed : List ℕ
worker_handler_failed =
    119 ∷ 111 ∷ 114 ∷ 107 ∷ 101 ∷ 114 ∷ 32 ∷ 104 ∷ 97 ∷ 110 ∷ 100 ∷ 108 ∷ 101 ∷ 114 ∷ 32 ∷ 102 ∷ 97
    ∷ 105 ∷ 108 ∷ 101 ∷ 100 ∷ []

-- The response to a request: the handler's, or, when it throws, an error response under the request's
-- identifier whose payload is "worker handler failed".
abbrev pub Responds : Message → Option Message → Message → Type 0
Responds request (some m) response = response ≡ m
Responds request none response =
    (response.type ≡ error_response)
    × (response.request_id ≡ request.request_id)
    × (response.payload ≡ worker_handler_failed)

pub record IsResult (handler : WorkHandler) (i : WorkItem) (r : WorkResult) : Type 0 where
  pub connection : r.connection_id ≡ i.connection_id
  pub sequence : r.sequence ≡ i.sequence
  pub response : Responds i.request (handler i.request) r.response

-- One result for each item, in order.
abbrev pub Results : WorkHandler → List WorkItem → List WorkResult → Type 0
Results handler [] [] = Unit {0}
Results handler [] (r ∷ rs) = ⊥
Results handler (i ∷ is) [] = ⊥
Results handler (i ∷ is) (r ∷ rs) = IsResult handler i r × Results handler is rs

module _ (handler : WorkHandler) where
  work-Responds :
      (request : Message) (m : Option Message)
      → Responds request m (response_of request.request_id m)
  unfolding response_of worker_handler_error_response respond_error
  work-Responds request (some m) = refl
  work-Responds request none = (refl, refl, refl)

  pub work-IsResult : (i : WorkItem) → IsResult handler i (work handler i)
  unfolding work
  work-IsResult i = record {
    connection = refl;
    sequence = refl;
    response = work-Responds i.request (handler i.request);
  }

  pub Results-append :
      (is : List WorkItem) (rs : List WorkResult) (i : WorkItem) (r : WorkResult)
      → Results handler is rs
      → IsResult handler i r
      → Results handler (is ++ (i ∷ [])) (rs ++ (r ∷ []))
  Results-append [] [] i r h x = (x, tt)
  Results-append [] (q ∷ rs) i r h x = absurd h
  Results-append (j ∷ is) [] i r h x = absurd h
  Results-append (j ∷ is) (q ∷ rs) i r h x = (h.0, Results-append is rs i r h.1 x)
