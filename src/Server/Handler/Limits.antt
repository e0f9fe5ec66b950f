-- ===== src/Server/Handler/Limits.antt =====
-- The limits of a handler are positive, whatever its options say.
use authzen.Base.{true, ◌≡◌, List, is_pos, arith}
use authzen.Server.Handler.{
  Handler, HandlerOption, normalize, new_handler, apply_options, default_handler,
  default_max_body_bytes, default_max_batch_size,
}

normalize_limits :
    (h : Handler)
    → (is_pos (normalize h).max_body_bytes ≡ true) × (is_pos (normalize h).max_batch_size ≡ true)
unfolding normalize default_max_body_bytes default_max_batch_size
normalize_limits h = (ground arith, ground arith)

-- A constructed handler bounds bodies and batches by positive limits, whatever its options are.
pub new_handler_limits :
    (os : List HandlerOption)
    → (is_pos (new_handler os).max_body_bytes ≡ true)
      × (is_pos (new_handler os).max_batch_size ≡ true)
unfolding new_handler
new_handler_limits os = normalize_limits (apply_options default_handler os)
