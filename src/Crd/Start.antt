-- ===== src/Crd/Start.antt =====
-- CRD_fsmStart of crd.c: the menu of credentials is entered, and the protocol unlocked.
use memtype.State.{Device, MenuState, on_printer, on_uif}
use memtype.Print.{print_delete_str}
use memtype.Crd.Menu.{crd_print}
use memtype.Ucp.Lock.{ucp_unlock}

abbrev pub crd_fsm_start : Device → Device
crd_fsm_start d = ucp_unlock (
    crd_print (
      on_printer print_delete_str (on_uif (λ u. record u { uif_state = MenuState.credentials }) d)))
