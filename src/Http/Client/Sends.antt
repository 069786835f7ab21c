-- ===== src/Http/Client/Sends.antt =====
-- How often `request` of apps/web/lib/api.ts sends, and what it answers to an error of the API.
use handly_web_app.Prelude.{
  ℕ, ◌≤◌, ◌≡◌, ◌≢◌, if◌then◌else◌, refl, ap, true, false, nat_beq, leb, Option, none, some, List,
  [], ◌∷◌, ◌++◌, arith,
}
use handly_web_app.Http.Problems.{
  Text, Exception, Problem, internal_title, classify, hide, catch_exception,
}
use handly_web_app.Http.Client.{
  Method, Sent, Answer, network_error, read_outcome, RequestOptions, Response, api_error,
  is_success, is_retryable, read_data, read_response, retry, send, to_sent, request,
}

-- The network, with a record of what was sent.
abbrev pub logged :
    {S : Type 0}
    → (Sent → S → Option Response × S)
    → Sent
    → List Sent × S
    → Option Response × (List Sent × S)
logged fetch sent (log, s) = let (r, t) = fetch sent s in (r, (log ++ sent ∷ [], t))

-- The response that carries a problem.
abbrev pub response_of : ℕ → Problem → Response
response_of status p = record {
  status = status;
  data_read =
      some (record { detail = p.detail; title = some p.title; errors = p.errors; json = [] });
}

module _ (unexpected : Text) where
  told :
      (p : Problem)
      → 500 ≤ p.status
      → read_response unexpected (response_of p.status (hide p))
        ≡ api_error p.status internal_title p.errors
  unfolding hide read_response read_data
  told p high =
      let top : leb 500 p.status ≡ true = ground (arith, high) in
      let some_body : nat_beq p.status 204 ≡ false = ground (arith, high) in
      let below : is_success p.status ≡ false = ground (arith, high) in
      rw (top, some_body, below) refl

  module _ {S : Type 0} (fetch : Sent → S → Option Response × S) where
    -- What a request answers and has sent: once, where a response came or the method is POST, and twice
    -- where none came and the method is another; then the second try is the answer.
    pub data Sends (sent : Sent) (s : S) (log : List Sent) : Answer → List Sent → Type 0 where
      answered_once :
          (r : Response)
          → (fetch sent s).0 ≡ some r
          → Sends sent s log (read_response unexpected r) (log ++ sent ∷ [])
      posted_once :
          (fetch sent s).0 ≡ none
          → sent.method ≡ Method.post
          → Sends sent s log network_error (log ++ sent ∷ [])
      twice :
          (t : S)
          → fetch sent s ≡ (none, t)
          → sent.method ≢ Method.post
          → Sends sent s log
              (read_outcome unexpected (fetch sent t).0)
              ((log ++ sent ∷ []) ++ sent ∷ [])

    -- The same of the answer and the state that a request comes to.
    abbrev pub SendsTo : Sent → S → List Sent → Answer × (List Sent × S) → Type 0
    SendsTo sent s log x = Sends sent s log x.0 x.1.0

    unanswered-Sends :
        (sent : Sent) (s t : S) (log : List Sent) (method : Method)
        → sent.method ≡ method
        → fetch sent s ≡ (none, t)
        → SendsTo sent s log (
            if is_retryable method
            then (let (r, u) = logged fetch sent (log ++ sent ∷ [], t) in
                (read_outcome unexpected r, u))
            else (network_error, (log ++ sent ∷ [], t)))
    unanswered-Sends sent s t log Method.post m e = posted_once (ap (λ p. p.0) e) m
    unanswered-Sends sent s t log Method.get m e = twice t e (λ p. absurd (ground (arith, m, p)))
    unanswered-Sends sent s t log Method.patch m e = twice t e (λ p. absurd (ground (arith, m, p)))
    unanswered-Sends sent s t log Method.delete m e = twice t e (λ p. absurd (ground (arith, m, p)))

    retry-Sends :
        (sent : Sent) (s : S) (log : List Sent) (x : Option Response × S)
        → fetch sent s ≡ x
        → SendsTo sent s log (retry unexpected (logged fetch) sent (x.0, (log ++ sent ∷ [], x.1)))
    retry-Sends sent s log (some r, t) e = answered_once r (ap (λ p. p.0) e)
    retry-Sends sent s log (none, t) e = unanswered-Sends sent s t log sent.method refl e

    -- A request is sent once if a response comes or it is a POST, whatever the network does, and exactly
    -- twice if it is a GET, PATCH or DELETE and the first try gets no response; it answers what the last
    -- try got.
    pub request-Sends :
        (token : Option Text) (path : Text) (options : RequestOptions) (s : S) (log : List Sent)
        → SendsTo
            (to_sent token path options)
            s
            log
            (request unexpected (logged fetch) token path options (log, s))
    unfolding request send
    request-Sends token path options s log =
        retry-Sends (to_sent token path options) s log (fetch (to_sent token path options) s) refl

    module _ (status_name : ℕ → Option Text) where
      -- Whatever fails in the server with a status of 500 or more is reported to the monitoring, and the
      -- page whose request it was is told no more of it than "Internal Server Error".
      pub request-catch_exception :
          (token : Option Text) (path url : Text) (options : RequestOptions) (e : Exception)
          (s t : S)
          → 500 ≤ (classify status_name e).status
          → (let h = catch_exception status_name url e in
              fetch (to_sent token path options) s ≡ (some (response_of h.reply_status h.body), t))
          → ((catch_exception status_name url e).is_captured ≡ true)
            × (request unexpected fetch token path options s ≡ (
              api_error
                  (classify status_name e).status
                  internal_title
                  (classify status_name e).errors,
              t,
            ))
      unfolding request send catch_exception
      request-catch_exception token path url options e s t high sent =
          let p = classify status_name e in
          let top : leb 500 p.status ≡ true = ground (arith, high) in
          (top, rw sent (ap (λ x. (x, t)) (told p high)))
