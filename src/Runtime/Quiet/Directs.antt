-- ===== src/Runtime/Quiet/Directs.antt =====
-- The portable C runtime of src/minimachine/runtime.py leaves the control state of the machine
-- alone.
use minimachine.Runtime.Direct.{Direct}
use minimachine.Runtime.Quiet.{Quiet}
