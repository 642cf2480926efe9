-- ===== src/Core/Frame/Params.antt =====
-- `Frame::params_as`: the payload of a call, read by a decoder for its type.
use mjx_acp_agent.Core.Frame.{Frame, RawValue, params}
use mjx_acp_agent.Prelude.{Option, none, some, Result, ok, err}

-- A decoder is serde_json's reader at one type.
abbrev pub Decoder {ℓ} : Type 0 → Type ℓ → Type ℓ
Decoder E T = RawValue → Result T E

transpose {ℓ} : {E : Type 0} {T : Type ℓ} → Result T E → Result (Option T) E
transpose (ok t) = ok (some t)
transpose (err e) = err e

unfoldable pub params_as {ℓ} : {E : Type 0} {T : Type ℓ} → Decoder E T → Frame → Result (Option T) E
unfolding params transpose
params_as decode f = elim (params f) [ none ↦ ok none | some raw ↦ transpose (decode raw) ]
