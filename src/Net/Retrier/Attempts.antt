-- ===== src/Net/Retrier/Attempts.antt =====
-- retrier.go: how often Do calls its function, and what it returns.
use skywire_mainnet_old.Base.{
  Error, Outcome, [], ap, arith, err, false, inl, inr, length, list_eq, maximum_retries_reached,
  nat_beq, nat_eq, none, ok, refl, some, suc, ℕ, ◌+◌, ◌-◌, ◌<◌, ◌∙◌, ◌∷◌, ◌≡◌, ◌≤◌, ◌⊎◌,
}
use skywire_mainnet_old.Base.Step.{Step}
use skywire_mainnet_old.Net.Retrier.{
  Retrier, Run, next_backoff, judge, attempt, or_again, retry_n_times, retry_until_success,
  do_retry,
}

module _ {S : Type 0} (r : Retrier) (f : Step S (Unit {0})) where
  -- So many attempts in a row fail with errors that are not whitelisted; the backoff grows with each.
  pub data Fails : ℕ → Run S → ℕ → ℕ → Run S → Type 0 where
    no_more : (c : ℕ) (run : Run S) → Fails c run 0 c run
    again :
        {c d k : ℕ} {run run' : Run S} (s : S) (e : Error)
        → f run.state ≡ (s, err e)
        → r.is_whitelisted e ≡ false
        → Fails
            (next_backoff r c)
            (record { state = s; slept = next_backoff r c ∷ run.slept })
            k
            d
            run'
        → Fails c run (suc k) d run'

  attempt_fails :
      (b : ℕ) (run : Run S) (s : S) (e : Error)
      → f run.state ≡ (s, err e)
      → r.is_whitelisted e ≡ false
      → attempt r f b run ≡ (record { state = s; slept = b ∷ run.slept }, none)
  unfolding attempt judge
  attempt_fails b run s e ran other = ap (judge r f b run.slept) ran ∙ (rw (other, judge) refl)

  attempt_succeeds :
      (b : ℕ) (run : Run S) (s : S)
      → f run.state ≡ (s, ok tt)
      → attempt r f b run ≡ (record { state = s; slept = run.slept }, some (ok tt))
  unfolding attempt judge
  attempt_succeeds b run s ran = ap (judge r f b run.slept) ran

  n_times_fails :
      (n c : ℕ) (run run' : Run S)
      → attempt r f (next_backoff r c) run ≡ (run', none)
      → retry_n_times r f (suc n) c run ≡ retry_n_times r f n (next_backoff r c) run'
  unfolding retry_n_times or_again
  n_times_fails n c run run' h =
      ap (or_again r f (retry_n_times r f n (next_backoff r c)) (λ run o. (run, o))) h

  n_times_done :
      (n c : ℕ) (run run' : Run S) (o : Outcome (Unit {0}))
      → attempt r f (next_backoff r c) run ≡ (run', some o)
      → retry_n_times r f (suc n) c run ≡ (run', o)
  unfolding retry_n_times or_again
  n_times_done n c run run' o h =
      ap (or_again r f (retry_n_times r f n (next_backoff r c)) (λ run o. (run, o))) h

  until_fails :
      (n c : ℕ) (run run' : Run S)
      → attempt r f (next_backoff r c) run ≡ (run', none)
      → retry_until_success r f (suc n) c run ≡ retry_until_success r f n (next_backoff r c) run'
  unfolding retry_until_success or_again
  until_fails n c run run' h =
      ap (or_again r f (retry_until_success r f n (next_backoff r c)) (λ run o. (run, some o))) h

  until_done :
      (n c : ℕ) (run run' : Run S) (o : Outcome (Unit {0}))
      → attempt r f (next_backoff r c) run ≡ (run', some o)
      → retry_until_success r f (suc n) c run ≡ (run', some o)
  unfolding retry_until_success or_again
  until_done n c run run' o h =
      ap (or_again r f (retry_until_success r f n (next_backoff r c)) (λ run o. (run, some o))) h

  n_times_after :
      (n k c d : ℕ) (run run' : Run S)
      → Fails c run k d run'
      → retry_n_times r f (k + n) c run ≡ retry_n_times r f n d run'
  n_times_after n _ c _ run _ (no_more _ _) = ap (λ m. retry_n_times r f m c run) (omega arith)
  n_times_after n _ _ _ _ _ (again {c} {d} {k} {run} {run'} s e ran other more) =
      ap (λ m. retry_n_times r f m c run) (omega arith)
      ∙ (n_times_fails (k + n) c run _ (attempt_fails (next_backoff r c) run s e ran other)
          ∙ n_times_after n k _ d _ run' more)

  until_after :
      (n k c d : ℕ) (run run' : Run S)
      → Fails c run k d run'
      → retry_until_success r f (k + n) c run ≡ retry_until_success r f n d run'
  until_after n _ c _ run _ (no_more _ _) = ap (λ m. retry_until_success r f m c run) (omega arith)
  until_after n _ _ _ _ _ (again {c} {d} {k} {run} {run'} s e ran other more) =
      ap (λ m. retry_until_success r f m c run) (omega arith)
      ∙ (until_fails (k + n) c run _ (attempt_fails (next_backoff r c) run s e ran other)
          ∙ until_after n k _ d _ run' more)

  length_slept :
      (k c d : ℕ) (run run' : Run S)
      → Fails c run k d run'
      → length run'.slept ≡ k + length run.slept
  length_slept _ c _ run _ (no_more _ _) = omega arith
  length_slept _ _ _ _ _ (again {c} {d} {k} {run} {run'} s e ran other more) =
      omega (arith, length_slept k _ d _ run' more)

  do_retry_forever :
      (n : ℕ) (run : Run S)
      → r.times ≡ 0
      → do_retry r f n run ≡ retry_until_success r f n r.exponential_backoff run
  unfolding do_retry
  do_retry_forever n run h = rw h refl

  do_retry_times :
      (n : ℕ) (run run' : Run S) (o : Outcome (Unit {0}))
      → 1 ≤ r.times
      → retry_n_times r f r.times r.exponential_backoff run ≡ (run', o)
      → do_retry r f n run ≡ (run', some o)
  unfolding do_retry
  do_retry_times n run run' o h ran = rw some_times (ap (λ q. (q.0, some (q.1))) ran)
    where
      some_times : nat_beq r.times 0 ≡ false
      some_times = ground arith

  -- Do returns, with success, as soon as an attempt succeeds: after `k` attempts that fail with errors
  -- which are not whitelisted, if Do is to try for ever or more than `k` times, and after `k` sleeps;
  -- `k + 1` rounds are enough when it tries for ever.
  pub do_retry_succeeds :
      (k d : ℕ) (s : S) (start : S) (run : Run S)
      → (r.times ≡ 0) ⊎ (k < r.times)
      → Fails r.exponential_backoff (record { state = start; slept = [] }) k d run
      → f run.state ≡ (s, ok tt)
      → (do_retry r f (k + 1) (record { state = start; slept = [] })
          ≡ (record { state = s; slept = run.slept }, some (ok tt)))
        × (length run.slept ≡ k)
  do_retry_succeeds k d s start run (inl forever) fails ran = (
    do_retry_forever (k + 1) _ forever
        ∙ (until_after 1 k _ d _ run fails
            ∙ until_done 0 d run _ (ok tt) (attempt_succeeds _ run s ran)),
    length_slept k _ d _ run fails ∙ omega arith,
  )
  do_retry_succeeds k d s start run (inr few) fails ran = (
    do_retry_times (k + 1) _ _ (ok tt) (omega arith) (
        ap (λ t. retry_n_times r f t r.exponential_backoff (record { state = start; slept = [] }))
          (omega arith)
        ∙ (n_times_after (suc (r.times - k - 1)) k _ d _ run fails
            ∙ n_times_done (r.times - k - 1) d run _ (ok tt) (attempt_succeeds _ run s ran))),
    length_slept k _ d _ run fails ∙ omega arith,
  )

  -- Do gives up after `times` attempts that all fail with errors which are not whitelisted; it sleeps
  -- after each of them, the last one included.
  pub do_retry_gives_up :
      (n d : ℕ) (start : S) (run : Run S)
      → 1 ≤ r.times
      → Fails r.exponential_backoff (record { state = start; slept = [] }) r.times d run
      → (do_retry r f n (record { state = start; slept = [] })
          ≡ (run, some (err maximum_retries_reached)))
        × (length run.slept ≡ r.times)
  unfolding retry_n_times
  do_retry_gives_up n d start run h fails = (
    do_retry_times n _ run (err maximum_retries_reached) h (
        ap (λ t. retry_n_times r f t r.exponential_backoff (record { state = start; slept = [] }))
          none_more
        ∙ n_times_after 0 r.times _ d _ run fails),
    length_slept r.times _ d _ run fails ∙ omega arith,
  )
    where
      none_more : r.times ≡ r.times + 0
      none_more = omega arith
