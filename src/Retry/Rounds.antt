-- ===== src/Retry/Rounds.antt =====
-- That the rounds which `requestWithRetry` gives its loop are enough.
use firezone_go.Prelude.{
  ℕ, zero, suc, ◌+◌, true, ◌&&◌, Option, none, some, Str, ◌≡◌, ◌≢◌, refl, ap, sym, ◌∙◌, arith,
  Option-cases, inl, inr,
}
use firezone_go.Prelude.Int.{pos, leb_ℤ}
use firezone_go.Client.{Client}
use firezone_go.Errors.{GoError, Result, ok, err}
use firezone_go.Http.{Log, World, M}
use firezone_go.Retry.{
  rate_limit, retry_loop, rounds_of, after_attempt, finish, Pass, return_with, go_on,
}

finish_same :
    (f g : GoError → M Str) (p : Pass)
    → ((e : GoError) (log : Log) → p ≡ go_on e log → f e log ≡ g e log)
    → finish f p ≡ finish g p
finish_same f g (return_with r log) h = refl
finish_same f g (go_on e log) h = h e log refl

-- The pass at the budget does not go on.
last_pass :
    (w : World) (c : Client) (n : ℕ) (r : Result Str) (log log' : Log) (e : GoError)
    → c.max_retries ≡ pos n
    → after_attempt w c r n log ≢ go_on e log'
unfolding after_attempt
last_pass w c n (ok b) log log' e budget same = cc
last_pass w c n (err x) log log' e budget same = elim (Option-cases (rate_limit x)) [
  | inl other ↦ cc (rw (other, after_attempt) at same)
  | inr (a, limited) ↦
      let at_end : (leb_ℤ (pos n) c.max_retries && leb_ℤ c.max_retries (pos n)) ≡ true =
        ground arith in
      cc (rw (limited, after_attempt, at_end) at same)
]

module _ (w : World) (c : Client) (once : M Str) (n : ℕ) (budget : c.max_retries ≡ pos n)
    (extra : ℕ) where
  same_from :
      (rounds more attempt : ℕ) (last : Option GoError) (log : Log)
      → more ≡ rounds + extra
      → attempt + rounds ≡ n
      → retry_loop w c once (suc more) attempt last log
        ≡ retry_loop w c once (suc rounds) attempt last log
  unfolding retry_loop
  same_from zero more attempt last log m h =
      finish_same _ _ (after_attempt w c (once log).0 attempt (once log).1) (λ e log' same.
        let at_budget : c.max_retries ≡ pos attempt = budget ∙ ap pos (omega (arith, h)) in
        absurd (last_pass w c attempt (once log).0 (once log).1 log' e at_budget same))
  same_from (suc rounds) zero attempt last log m h = absurd (omega (arith, m))
  same_from (suc rounds) (suc more) attempt last log m h =
      finish_same _ _ (after_attempt w c (once log).0 attempt (once log).1) (λ e log' same.
        same_from rounds more (attempt + 1) (some e) log' (omega (arith, m)) (omega (arith, h)))

-- With a budget of `n` retries, the loop has the same outcome with any number of rounds beyond
-- those that the budget gives it.
pub retry_loop_enough :
    (w : World) (c : Client) (once : M Str) (n extra : ℕ) (log : Log)
    → c.max_retries ≡ pos n
    → retry_loop w c once (rounds_of c.max_retries + extra) 0 none log
      ≡ retry_loop w c once (rounds_of c.max_retries) 0 none log
retry_loop_enough w c once n extra log budget =
    let rounds : rounds_of c.max_retries + extra ≡ suc (n + extra) =
      ap (λ z. rounds_of z + extra) budget ∙ omega arith in
    ap (λ r. retry_loop w c once r 0 none log) rounds
    ∙ same_from w c once n budget extra n (n + extra) 0 none log refl (omega arith)
    ∙ ap (λ z. retry_loop w c once (rounds_of z) 0 none log) (sym budget)
