-- ===== src/LogWriter.antt =====
-- libs/log_writer/writer/log_writer.{h,cpp}: `LogWriter`, a queue that callers fill and one worker
-- thread empties into a storage. A step of a thread is what it does under the mutex, or one write.
pub mod Drains
use tracebox.Prelude.{
  ℕ, zero, suc, ◌≡◌, Bool, true, false, Option, none, some, List, [], ◌∷◌, ◌++◌, if◌then◌else◌,
}
use tracebox.StreamWriter.{LogRequest}

pub record LogWriter : Type 0 where
  pub queue : List LogRequest
  pub stopping : Bool

-- The worker waits, holds a request that it has taken, or has left its loop.
pub data Worker : Type 0 where
  waits : Worker
  holds : LogRequest → Worker
  ended : Worker

-- `add`
unfoldable pub add : LogWriter → LogRequest → LogWriter × Bool
add w request =
    if w.stopping then (w, false) else (record w { queue = w.queue ++ request ∷ [] }, true)

-- `stop`, up to the join.
unfoldable pub stop : LogWriter → LogWriter
stop w = record w { stopping = true }

-- How `wait` ends: it goes on waiting, it returns null, or it returns a request.
pub data Waited : Type 0 where
  blocked : Waited
  finished : Waited
  taken : LogRequest → LogWriter → Waited

abbrev pub take_front : LogWriter → List LogRequest → Waited
take_front w [] = if w.stopping then finished else blocked
take_front w (request ∷ rest) = taken request (record w { queue = rest })

-- `wait`: the condition `stopping_ || !queue_.empty()`, and what follows it.
unfoldable pub wait : LogWriter → Waited
wait w = take_front w w.queue

-- The writer with its worker thread, over a storage.
pub record System (S : Type 0) : Type 0 where
  pub writer : LogWriter
  pub worker : Worker
  pub storage : S

-- The constructor.
unfoldable pub start : {S : Type 0} → S → System S
start storage = record {
  writer = record { queue = []; stopping = false };
  worker = waits;
  storage = storage;
}

-- What the worker has still to write.
abbrev pub held : Worker → List LogRequest
held waits = []
held (holds request) = request ∷ []
held ended = []

abbrev pub pending : {S : Type 0} → System S → List LogRequest
pending s = held s.worker ++ s.writer.queue

-- The worker's loop, one round of `wait` or one `storage_->write`.
abbrev pub waited : {S : Type 0} → System S → Waited → System S
waited s blocked = s
waited s finished = record s { worker = ended }
waited s (taken request w) = record s { writer = w; worker = holds request }

module _ {S : Type 0} (store : S → LogRequest → S) where
  abbrev pub work_on : System S → Worker → System S
  work_on s waits = waited s (wait s.writer)
  work_on s (holds request) = record s { worker = waits; storage = store s.storage request }
  work_on s ended = s

  unfoldable pub work : System S → System S
  work s = work_on s s.worker

  -- One step of some thread, and the requests that it has accepted: none or one.
  pub data Step (s : System S) : System S → List LogRequest → Type 0 where
    accepts :
        (request : LogRequest)
        → (add s.writer request).1 ≡ true
        → Step s (record s { writer = (add s.writer request).0 }) (request ∷ [])
    refuses :
        (request : LogRequest)
        → (add s.writer request).1 ≡ false
        → Step s (record s { writer = (add s.writer request).0 }) []
    stops : Step s (record s { writer = stop s.writer }) []
    works : Step s (work s) []

  -- The states that any interleaving leads to, with all requests accepted on the way.
  pub data Reach (s : System S) : System S → List LogRequest → Type 0 where
    here : Reach s s []
    next :
        {t u : System S} {accepted more : List LogRequest}
        → Reach s t accepted
        → Step t u more
        → Reach s u (accepted ++ more)

  -- `n` rounds of the worker alone.
  unfoldable pub work_for : ℕ → System S → System S
  work_for zero s = s
  work_for (suc n) s = work_for n (work s)
