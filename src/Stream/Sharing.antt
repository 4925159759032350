-- ===== src/Stream/Sharing.antt =====
-- `ngx_stream_statshouse_merge_srv_conf` of src/ngx_stream_statshouse_module.c and the arrays of metrics.
use nginx_statshouse_module.Base.{
  ℕ, zero, suc, ◌<◌, ◌≡◌, ◌≢◌, refl, sym, ap, subst, append-nil, List, [], ◌∷◌, ◌++◌, Bool, true,
  false, Option, none, some, length, get_or, set, arith,
}
use nginx_statshouse_module.Compile.Config.{Conf}
use nginx_statshouse_module.Directive.{Slot, conf_ok, duplicate, conf_error}
use nginx_statshouse_module.Stream.Conf.{SrvConf, MainConf}
use nginx_statshouse_module.Stream.Block.{merge_arrays, merge_rest, merge_srv_conf}

-- the metrics of a server block
abbrev pub metrics : {C : Type 0} → MainConf C → Option ℕ → List (Conf (Option C))
metrics main none = []
metrics main (some a) = get_or main.heap a []

-- An array of its own is there, and is not the parent's.
abbrev pub Own : {C : Type 0} → MainConf C → Option ℕ → Option ℕ → Type 0
Own main parent none = Unit
Own main parent (some a) = (a < length main.heap) × (parent ≢ some a)

get_or-set :
    {A : Type 0} (xs : List A) (i : ℕ) (a d : A) → i < length xs → get_or (set xs i a) i d ≡ a
get_or-set [] i a d h = absurd (omega arith)
get_or-set (x ∷ xs) zero a d h = refl
get_or-set (x ∷ xs) (suc i) a d h = get_or-set xs i a d (omega arith)

get_or-set_other :
    {A : Type 0} (xs : List A) (i j : ℕ) (a d : A) → i ≢ j → get_or (set xs i a) j d ≡ get_or xs j d
get_or-set_other [] i j a d h = refl
get_or-set_other (x ∷ xs) zero zero a d h = absurd (h refl)
get_or-set_other (x ∷ xs) zero (suc j) a d h = refl
get_or-set_other (x ∷ xs) (suc i) zero a d h = refl
get_or-set_other (x ∷ xs) (suc i) (suc j) a d h =
    get_or-set_other xs i j a d (λ e. h (ap (λ n. suc n) e))

-- What a merge does to the metrics.
pub record Shares {C : Type 0} (main : MainConf C) (prev conf : SrvConf)
    (merged : SrvConf × MainConf C) : Type 0 where
  pub all : metrics merged.1 merged.0.confs ≡ metrics main conf.confs ++ metrics main prev.confs
  pub parent : metrics merged.1 prev.confs ≡ metrics main prev.confs
  pub servers : merged.1.servers ≡ main.servers

abbrev OnMerge :
    {C : Type 0} → MainConf C → SrvConf → SrvConf → Slot (SrvConf × MainConf C) → Type 0
OnMerge main prev conf (conf_ok merged) = Shares main prev conf merged
OnMerge main prev conf duplicate = Unit
OnMerge main prev conf conf_error = Unit

module _ {C : Type 0} (main : MainConf C) (server : Option (Option ℕ)) (enable : Option Bool) where
  -- the child with its array
  abbrev child : Option ℕ → SrvConf
  child own = record { confs = own; server = server; enable = enable }

  merge_arrays-OnMerge :
      (granted : Bool) (prev : SrvConf) (parent own : Option ℕ)
      → prev.confs ≡ parent
      → Own main parent own
      → OnMerge main prev
          (child own)
          (merge_rest main prev (child own) (merge_arrays granted parent own main.heap))
  unfolding merge_rest merge_arrays
  merge_arrays-OnMerge granted prev none own p h = record {
    all = rw p (sym (append-nil _));
    parent = refl;
    servers = refl;
  }
  merge_arrays-OnMerge granted prev (some a) none p h = record {
    all = rw p refl;
    parent = refl;
    servers = refl;
  }
  merge_arrays-OnMerge true prev (some a) (some b) p (below, other) = record {
    all = rw p (get_or-set main.heap b _ [] below);
    parent = rw p (get_or-set_other main.heap b a _ [] (λ e. other (ap (λ n. some n) (sym e))));
    servers = refl;
  }
  merge_arrays-OnMerge false prev (some a) (some b) p h = tt

-- If the merge of a server block is accepted, and the block's array, if it has one of its own, is
-- there and is not its parent's, then the block has its own metrics before those of the parent,
-- the parent has the same metrics as before, and the registered servers are the same.
pub merge_srv_conf-Shares :
    {C : Type 0} (granted : Bool) (main main' : MainConf C) (prev conf merged : SrvConf)
    → Own main prev.confs conf.confs
    → merge_srv_conf granted main prev conf ≡ conf_ok (merged, main')
    → Shares main prev conf (merged, main')
unfolding merge_srv_conf
merge_srv_conf-Shares granted main main' prev conf merged own e =
    subst (λ r. OnMerge main prev conf r) e
      (merge_arrays-OnMerge main conf.server conf.enable granted prev prev.confs conf.confs refl
        own)
