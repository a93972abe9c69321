-- ===== src/App/Build/Lifecycle.antt =====
-- server/internal/app/app.go: the order of starting and of stopping.
use opslog.Prelude.{Option, none, some, List, [], ◌∷◌, ◌++◌, Text, Error, text}
use opslog.App.Build.{App}

-- What starting and stopping does to the state `W` of the process.
pub record Running (I O W : Type 0) : Type 0 where
  pub start_dispatcher : W → W
  pub stop_dispatcher : W → W
  pub start_input : I → W → Option Error × W
  pub stop_input : I → W → W
  pub input_name : I → Text
  pub listen_http : W → Option Error × W
  pub shutdown_http : W → W
  pub close_output : O → W → W

module _ {I P O W : Type 0} (io : Running I O W) (a : App I P O) (listen : Text) where
  open io use {
    start_dispatcher, stop_dispatcher, start_input, stop_input, input_name, listen_http,
    shutdown_http, close_output,
  }

  unfoldable pub input_started : I → (W → Option Error × W) → Option Error × W → Option Error × W
  input_started i next (some e, w) =
      (some (text "start input " ++ (input_name i ++ (text ": " ++ e))), w)
  input_started i next (none, w) = next w

  unfoldable pub listening : Option Error × W → Option Error × W
  listening (some e, w) = (some (text "http listen " ++ (listen ++ (text ": " ++ e))), w)
  listening (none, w) = (none, w)

  -- The inputs one by one, then the HTTP server.
  unfoldable pub start_inputs : List I → W → Option Error × W
  start_inputs [] w = listening (listen_http w)
  start_inputs (i ∷ is) w = input_started i (start_inputs is) (start_input i w)

  -- `Start`
  unfoldable pub start : W → Option Error × W
  start w = start_inputs a.inputs (start_dispatcher w)

  unfoldable pub stop_inputs : List I → W → W
  stop_inputs [] w = w
  stop_inputs (i ∷ is) w = stop_inputs is (stop_input i w)

  unfoldable pub close_outputs : List O → W → W
  close_outputs [] w = w
  close_outputs (o ∷ os) w = close_outputs os (close_output o w)

  -- `Stop`; it drops every error.
  unfoldable pub stop : W → W
  stop w = close_outputs a.outs (stop_dispatcher (stop_inputs a.inputs (shutdown_http w)))
