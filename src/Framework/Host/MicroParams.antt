-- ===== src/Framework/Host/MicroParams.antt =====
-- The parameters of the benchmark go through the options unchanged.
use libvsf.Prelude.{◌≡◌, refl}
use libvsf.Prelude.Exec.{ok}
use libvsf.Container.Order.{same}
use libvsf.Container.Map.{put}
use libvsf.Utils.Options.{param_less}
use libvsf.Utils.ParamVal.{get_string, get_char, get_int}
use libvsf.Host.NodeTestDist.{MicroParam}
use libvsf.Framework.Host.{
  read_micro_param, read_micro_params, option_param_to_micro_param, micro_param_to_option_param,
}

-- Parameters that are stored as options are read back as they were.
pub micro_param_roundtrip :
    (F : Type 0) (m : MicroParam)
    → option_param_to_micro_param {F = F} (micro_param_to_option_param m) ≡ ok m
unfolding option_param_to_micro_param micro_param_to_option_param put same read_micro_params
    read_micro_param get_string get_char get_int
micro_param_roundtrip F m = refl
