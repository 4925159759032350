-- ===== src/Http/Commands.antt =====
-- `ngx_http_statshouse_commands`: the directives of src/ngx_http_statshouse_module.c.
use nginx_statshouse_module.Base.{List, [], ◌∷◌, ◌++◌, true, false}
use nginx_statshouse_module.Stat.{mt_counter, mt_value, mt_unique}
use nginx_statshouse_module.Text.{codes}
use nginx_statshouse_module.Directive.{
  Command, command, in_main, in_srv, in_loc, in_metric, server, metric, exists, condition, timeout,
  phase, sample, value, key,
}

-- `statshouse_server` and `statshouse_metric`
abbrev pub outer_commands : List Command
outer_commands =
    command (codes "statshouse_server") (in_main ∷ in_srv ∷ in_loc ∷ []) false true server
    ∷ command (codes "statshouse_metric") (in_main ∷ in_srv ∷ in_loc ∷ []) true false metric
    ∷ []

-- those of a metric before its keys
abbrev pub metric_commands : List Command
metric_commands =
    command (codes "exists") (in_metric ∷ []) false true exists
    ∷ command (codes "condition") (in_metric ∷ []) false true condition
    ∷ command (codes "timeout") (in_metric ∷ []) false true timeout
    ∷ command (codes "count") (in_metric ∷ []) false true (value mt_counter)
    ∷ command (codes "value") (in_metric ∷ []) false true (value mt_value)
    ∷ command (codes "unique") (in_metric ∷ []) false true (value mt_unique)
    ∷ command (codes "phase") (in_metric ∷ []) false false phase
    ∷ []

-- the keys
abbrev pub key_commands : List Command
key_commands =
    command (codes "key0") (in_metric ∷ []) false true (key 0 (codes "0"))
    ∷ command (codes "key1") (in_metric ∷ []) false true (key 1 (codes "1"))
    ∷ command (codes "key2") (in_metric ∷ []) false true (key 2 (codes "2"))
    ∷ command (codes "key3") (in_metric ∷ []) false true (key 3 (codes "3"))
    ∷ command (codes "key4") (in_metric ∷ []) false true (key 4 (codes "4"))
    ∷ command (codes "key5") (in_metric ∷ []) false true (key 5 (codes "5"))
    ∷ command (codes "key6") (in_metric ∷ []) false true (key 6 (codes "6"))
    ∷ command (codes "key7") (in_metric ∷ []) false true (key 7 (codes "7"))
    ∷ command (codes "key8") (in_metric ∷ []) false true (key 8 (codes "8"))
    ∷ command (codes "key9") (in_metric ∷ []) false true (key 9 (codes "9"))
    ∷ command (codes "key10") (in_metric ∷ []) false true (key 10 (codes "10"))
    ∷ command (codes "key11") (in_metric ∷ []) false true (key 11 (codes "11"))
    ∷ command (codes "key12") (in_metric ∷ []) false true (key 12 (codes "12"))
    ∷ command (codes "key13") (in_metric ∷ []) false true (key 13 (codes "13"))
    ∷ command (codes "key14") (in_metric ∷ []) false true (key 14 (codes "14"))
    ∷ command (codes "key15") (in_metric ∷ []) false true (key 15 (codes "15"))
    ∷ command (codes "skey") (in_metric ∷ []) false true (key 16 (codes "_s"))
    ∷ []

-- the whole table
abbrev pub commands : List Command
commands =
    outer_commands
    ++ (metric_commands
        ++ (key_commands ++ (command (codes "sample") (in_metric ∷ []) false false sample ∷ [])))
