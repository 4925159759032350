-- ===== src/Nginx.antt =====
-- What the module takes from nginx: the return codes, the time in milliseconds and the flags of an
-- event.
use nginx_statshouse_module.Base.{ℕ, ◌+◌, ◌-◌, ◌%◌, ◌^◌, Bool, true}

-- `NGX_OK`, `NGX_ERROR`, `NGX_DECLINED`
pub data Rc : Type 0 where
  ngx_ok ngx_error ngx_declined : Rc

-- `ngx_msec_t` is an unsigned 64-bit number, and its difference wraps.
abbrev pub msec_sub : ℕ → ℕ → ℕ
msec_sub a b = (a + 2 ^ 64 - b) % 2 ^ 64

-- An `ngx_event_t`: `timer_set` with the delay that it was set to, and `posted`.
pub record Event : Type 0 where
  pub timer_set : Bool
  pub delay : ℕ
  pub posted : Bool

-- `ngx_add_timer` and `ngx_post_event`
abbrev pub add_timer : Event → ℕ → Event
add_timer ev ms = record ev { timer_set = true; delay = ms }

abbrev pub post_event : Event → Event
post_event ev = record ev { posted = true }
