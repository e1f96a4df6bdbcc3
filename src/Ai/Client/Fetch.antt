-- ===== src/Ai/Client/Fetch.antt =====
-- The request loop of `executeAnalyzeRequestWithContext` in ai_client.go, with what it does over HTTP.
use beryl7_ai_agent.Base.{
  ℕ, zero, suc, ◌+◌, ◌≤◌, ◌≡◌, refl, ◌&&◌, Bool, true, not, Option, none, some, List, [], ◌∷◌, ◌++◌,
  ◌==◌, if◌then◌else◌, arith,
}
use beryl7_ai_agent.Base.Int.{ℤ, pos}
use beryl7_ai_agent.Base.Text.{Text, atoi, is_empty}
use beryl7_ai_agent.Ai.Client.{AiResponse, AiError, context_done, bad_request, call_failed}

-- A reply has a status, its `Retry-After` header, and a body that may fail to be read.
pub data Reply : Type 0 where
  no_reply : Reply
  replied : ℕ → Text → Option Text → Reply

-- What the network, the context and the JSON decoder answer during one request, by the attempt.
pub record Web : Type 0 where
  pub is_done : ℕ → Bool
  pub request_ok : ℕ → Bool
  pub respond : ℕ → Reply
  pub done_in_backoff : ℕ → Bool
  pub done_in_pause : ℕ → Bool
  -- The parts of each candidate, in text, and the answer in a text.
  pub decode_body : Text → Option (List (List Text))
  pub decode_answer : Text → Option AiResponse

pub data HttpEvent : Type 0 where
  sent : Text → HttpEvent
  -- a wait, in seconds
  waited : ℤ → HttpEvent
  closed_body : HttpEvent

pub data Fetched : Type 0 where
  fetched : Option Text → Fetched
  gave_up : AiError → Fetched

abbrev or_five : Option ℤ → ℤ
or_five none = pos 5
or_five (some n) = n

abbrev pub retry_after_sec : Text → ℤ
retry_after_sec header = if is_empty header then pos 5 else or_five (atoi header)

-- The pause at the end of a round, after what the round has done.
abbrev pub pause : Web → ℕ → List HttpEvent → Fetched × List HttpEvent → Fetched × List HttpEvent
pause w n done rest =
    if w.done_in_pause n
    then (gave_up context_done, done)
    else (rest.0, done ++ waited (pos n) ∷ rest.1)

abbrev pub after_reply :
    Web → Text → ℕ → Reply → Fetched × List HttpEvent → Fetched × List HttpEvent
after_reply w prompt n no_reply rest = pause w n (sent prompt ∷ []) rest
after_reply w prompt n (replied status header body) rest =
    if status == 200
    then (fetched body, sent prompt ∷ closed_body ∷ [])
    else if not (status == 429)
    then pause w n (sent prompt ∷ closed_body ∷ []) rest
    else if w.done_in_backoff n
    then (gave_up context_done, sent prompt ∷ [])
    else pause w n (sent prompt ∷ waited (retry_after_sec header) ∷ closed_body ∷ []) rest

-- The loop from attempt `n` on, with so many attempts left.
unfoldable pub fetch : Web → Text → ℕ → ℕ → Fetched × List HttpEvent
fetch w prompt n zero = (gave_up call_failed, [])
fetch w prompt n (suc left) =
    let rest = fetch w prompt (suc n) left in
    if w.is_done n
    then (gave_up context_done, [])
    else if not (w.request_ok n)
    then (gave_up bad_request, [])
    else after_reply w prompt n (w.respond n) rest

abbrev pub sends : List HttpEvent → ℕ
sends [] = 0
sends (sent p ∷ evs) = suc (sends evs)
sends (waited n ∷ evs) = sends evs
sends (closed_body ∷ evs) = sends evs

pub sends-append : (a b : List HttpEvent) → sends (a ++ b) ≡ sends a + sends b
sends-append [] b = omega arith
sends-append (sent p ∷ a) b = omega (arith, sends-append a b)
sends-append (waited n ∷ a) b = sends-append a b
sends-append (closed_body ∷ a) b = sends-append a b

sends-pause :
    (w : Web) (n k : ℕ) (done : List HttpEvent) (rest : Fetched × List HttpEvent)
    → sends rest.1 ≤ k
    → sends done ≡ 1
    → sends ((pause w n done rest).1) ≤ suc k
sends-pause w n k done rest h d = ground (arith, sends-append done (waited (pos n) ∷ rest.1))

sends-after_reply :
    (w : Web) (prompt : Text) (n k : ℕ) (r : Reply) (rest : Fetched × List HttpEvent)
    → sends rest.1 ≤ k
    → sends ((after_reply w prompt n r rest).1) ≤ suc k
sends-after_reply w prompt n k no_reply rest h = sends-pause w n k (sent prompt ∷ []) rest h refl
sends-after_reply w prompt n k (replied status header body) rest h = ground (
  arith,
  sends-pause w n k (sent prompt ∷ closed_body ∷ []) rest h refl,
  sends-pause w n k (sent prompt ∷ waited (retry_after_sec header) ∷ closed_body ∷ []) rest h refl,
)

-- However the network answers, a loop with so many attempts left sends at most that many requests.
pub sends-fetch : (w : Web) (prompt : Text) (n left : ℕ) → sends ((fetch w prompt n left).1) ≤ left
unfolding fetch
sends-fetch w prompt n zero = omega arith
sends-fetch w prompt n (suc left) = ground (
  arith,
  sends-after_reply w prompt n left (w.respond n) (fetch w prompt (suc n) left)
      (sends-fetch w prompt (suc n) left),
)

-- The prompts that are sent pass a test.
abbrev pub all_sent : (Text → Bool) → List HttpEvent → Bool
all_sent p [] = true
all_sent p (sent t ∷ evs) = p t && all_sent p evs
all_sent p (waited n ∷ evs) = all_sent p evs
all_sent p (closed_body ∷ evs) = all_sent p evs

module _ (p : Text → Bool) where
  pub all_sent-append :
      (a b : List HttpEvent)
      → all_sent p a ≡ true
      → all_sent p b ≡ true
      → all_sent p (a ++ b) ≡ true
  all_sent-append [] b h k = k
  all_sent-append (sent t ∷ a) b h k = ground (arith, all_sent-append a b)
  all_sent-append (waited n ∷ a) b h k = all_sent-append a b h k
  all_sent-append (closed_body ∷ a) b h k = all_sent-append a b h k

  all_sent-pause :
      (w : Web) (n : ℕ) (done : List HttpEvent) (rest : Fetched × List HttpEvent)
      → all_sent p done ≡ true
      → all_sent p rest.1 ≡ true
      → all_sent p ((pause w n done rest).1) ≡ true
  all_sent-pause w n done rest h k =
      ground (arith, all_sent-append done (waited (pos n) ∷ rest.1) h k)

  all_sent-after_reply :
      (w : Web) (prompt : Text) (n : ℕ) (r : Reply) (rest : Fetched × List HttpEvent)
      → p prompt ≡ true
      → all_sent p rest.1 ≡ true
      → all_sent p ((after_reply w prompt n r rest).1) ≡ true
  all_sent-after_reply w prompt n no_reply rest h k =
      all_sent-pause w n (sent prompt ∷ []) rest (ground arith) k
  all_sent-after_reply w prompt n (replied status header body) rest h k = ground (
    arith,
    all_sent-pause w n (sent prompt ∷ closed_body ∷ []) rest (ground arith) k,
    all_sent-pause w n (sent prompt ∷ waited (retry_after_sec header) ∷ closed_body ∷ []) rest
        (ground arith) k,
  )

  pub all_sent-fetch :
      (w : Web) (prompt : Text) (n left : ℕ)
      → p prompt ≡ true
      → all_sent p ((fetch w prompt n left).1) ≡ true
  unfolding fetch
  all_sent-fetch w prompt n zero h = refl
  all_sent-fetch w prompt n (suc left) h = ground (
    arith,
    all_sent-after_reply w prompt n (w.respond n) (fetch w prompt (suc n) left) h
        (all_sent-fetch w prompt (suc n) left h),
  )
