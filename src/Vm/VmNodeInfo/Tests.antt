-- ===== src/Vm/VmNodeInfo/Tests.antt =====
-- The theorems on the command line applied to two arguments, and to two attributes.
use libvsf.Prelude.{◌≡◌, refl, some, Option, [], ◌∷◌, ◌++◌}
use libvsf.Prelude.Exec.{ok}
use libvsf.Utils.StrTools.{Text}
use libvsf.Utils.StrTools.Split.{join}
use libvsf.Utils.Search.{find_text, starts_with}
use libvsf.Vm.VmNodeInfo.{read_cmd_line, numa, cpus_name, mem_name, extract_attr}
use libvsf.Vm.VmNodeInfo.CmdLine.{spaced, read_cmd_line-join}
use libvsf.Vm.VmNodeInfo.Attr.{following, extract_attr-value}

-- "-numa" and "cpus"
read_cmd_line-join_example :
    read_cmd_line (some (join 0 (numa ∷ cpus_name ∷ []))) ≡ ok (spaced (numa ∷ cpus_name ∷ []))
read_cmd_line-join_example =
    read_cmd_line-join numa (cpus_name ∷ [])
      ((refl, (refl, (refl, (refl, (refl, tt))))), ((refl, (refl, (refl, (refl, tt)))), tt))

-- "0,2", after "node," and before ",mem=5"
abbrev value : Text
value = b'0' ∷ b',' ∷ b'2' ∷ []

abbrev before : Text
before = b'n' ∷ b'o' ∷ b'd' ∷ b'e' ∷ b',' ∷ []

abbrev more : Option (Text × Text)
more = some (mem_name, b'5' ∷ [])

found :
    find_text (cpus_name ++ b'=' ∷ []) (before ++ (cpus_name ++ (b'=' ∷ (value ++ following more))))
    ≡ some 5
unfolding find_text starts_with following
found = refl

extract_attr-value_example :
    extract_attr (before ++ (cpus_name ++ (b'=' ∷ (value ++ following more)))) cpus_name ≡ value
extract_attr-value_example =
    extract_attr-value before cpus_name value more found (refl, (refl, (refl, tt)))
      ((refl, (refl, (refl, tt))), (refl, (refl, (refl, tt))))
