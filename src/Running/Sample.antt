-- ===== src/Running/Sample.antt =====
-- The test of `sample` in src/ngx_http_statshouse_module.c and src/ngx_stream_statshouse_module.c.
use nginx_statshouse_module.Base.{
  ℕ, zero, suc, ◌+◌, ◌≤◌, ◌<◌, ◌≡◌, min, true, if◌then◌else◌, arith, ◌↔◌,
}
use nginx_statshouse_module.Compile.Config.{Conf}
use nginx_statshouse_module.Running.{sampled_out}

-- how many of the numbers below `n` do not leave the metric out
abbrev pub kept : {V : Type 0} → ℕ → Conf V → ℕ
kept zero conf = 0
kept (suc n) conf = if sampled_out n conf then kept n conf else suc (kept n conf)

sampled_out_iff :
    {V : Type 0} (conf : Conf V) (n : ℕ)
    → 0 < conf.sample
    → n < 100
    → (sampled_out n conf ≡ true) ↔ (conf.sample < n)
unfolding sampled_out
sampled_out_iff conf n h small = ground arith

kept_below :
    {V : Type 0} (conf : Conf V) (n : ℕ)
    → 0 < conf.sample
    → n ≤ 100
    → kept n conf ≡ min (conf.sample + 1) n
kept_below conf zero h small = omega arith
kept_below conf (suc n) h small =
    ground (arith, sampled_out_iff conf n h (omega arith), kept_below conf n h (omega arith))

-- Of the hundred remainders that a random number may have, those that do not leave a metric out
-- are one more than its `sample`, if that is not 0, and all hundred from 99 on.
pub kept-sample :
    {V : Type 0} (conf : Conf V) → 0 < conf.sample → kept 100 conf ≡ min (conf.sample + 1) 100
kept-sample conf h = kept_below conf 100 h (omega arith)
