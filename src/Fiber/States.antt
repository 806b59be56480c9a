-- ===== src/Fiber/States.antt =====
-- ddg/fiber.h, Fiber::State: the states of a fiber and their names.
use high_performance_server.Prelude.{◌≡◌, refl, Bool, true, false, Text, codes, same, if◌then◌else◌}

pub data State : Type 0 where
  unknow uninit init hold exec term ready except : State

-- The enumerators' values differ, so `==` is by cases.
abbrev pub eq_state : State → State → Bool
eq_state unknow unknow = true
eq_state uninit uninit = true
eq_state init init = true
eq_state hold hold = true
eq_state exec exec = true
eq_state term term = true
eq_state ready ready = true
eq_state except except = true
eq_state _ _ = false

unfoldable pub to_string : State → Text
to_string uninit = codes "UNINIT"
to_string init = codes "INIT"
to_string hold = codes "HOLD"
to_string exec = codes "EXEC"
to_string term = codes "TERM"
to_string ready = codes "READY"
to_string except = codes "EXCEPT"
to_string unknow = codes "Unknow"

unfoldable pub from_string : Text → State
unfolding same
from_string name =
    if same (codes "UNINIT") name
    then uninit
    else if same (codes "INIT") name
    then init
    else if same (codes "HOLD") name
    then hold
    else if same (codes "EXEC") name
    then exec
    else if same (codes "TERM") name
    then term
    else if same (codes "READY") name
    then ready
    else if same (codes "EXCEPT") name
    then except
    else unknow

-- A state is read back from its name, UNKNOW among them.
pub from_string-to_string : (s : State) → from_string (to_string s) ≡ s
unfolding from_string to_string
from_string-to_string uninit = refl
from_string-to_string init = refl
from_string-to_string hold = refl
from_string-to_string exec = refl
from_string-to_string term = refl
from_string-to_string ready = refl
from_string-to_string except = refl
from_string-to_string unknow = refl
