-- ===== src/Framework/Vm/Migrated.antt =====
-- A migration that is set by a virtual machine, and carried out by the entry.
use libvsf.Container.Map.{Map}
use libvsf.Container.Set.{Set}
use libvsf.Framework.Vsf.{Vsf}
