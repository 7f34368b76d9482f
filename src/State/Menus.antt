-- ===== src/State/Menus.antt =====
-- The variables of the menus: crd.c and crd.h, usi.c, uif.c, opt.c.
use memtype.Base.{ℕ, Bytes}

-- `cipher_t`
pub record Cipher : Type 0 where
  pub plain : Bytes
  pub key : Bytes

-- `credentialEncryptedFlash_t`
pub record Credential : Type 0 where
  pub name : ℕ
  pub next : ℕ
  pub encrypt : ℕ

-- The globals of crd.c. The enum `credPosition_t` is its number.
pub record Crd : Type 0 where
  pub cipher : Cipher
  pub credential : Credential
  pub position : ℕ
  pub counter : ℕ
  pub crd_start : ℕ
  pub crd_stop : ℕ

-- The static data of usi.c.
pub record Usi : Type 0 where
  pub user_text : Bytes
  pub user_pin : Bytes
  pub user_text_index : ℕ
  pub pin_retries : ℕ

-- `menuStates` of uif.h
pub data MenuState : Type 0 where
  start credentials options user_input : MenuState

pub record Uif : Type 0 where
  pub uif_state : MenuState
  pub cred_index : ℕ
  pub options_index : ℕ
  pub user_input_index : ℕ

-- The values of `fptr` of opt.c.
pub data Fp : Type 0 where
  null opt_print_pass opt_print_user : Fp
