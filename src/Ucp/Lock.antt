-- ===== src/Ucp/Lock.antt =====
-- The macros UCP_Unlock and UCP_Lock of ucp.h, and UCP_Init.
use memtype.State.{Device, on_ucp, on_leds, UcpState, red, green}
use memtype.Led.{set_led}

abbrev pub ucp_unlock : Device → Device
ucp_unlock d = on_leds (set_led green) (on_ucp (λ u. record u { ucp_state = UcpState.idle }) d)

abbrev pub ucp_lock : Device → Device
ucp_lock d = on_leds (set_led red) (on_ucp (λ u. record u { ucp_state = UcpState.device_locked }) d)

-- UCP_Init
abbrev pub ucp_init : Device → Device
ucp_init = on_ucp (λ u. record u { ucp_state = UcpState.device_locked })
