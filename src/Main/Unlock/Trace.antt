-- ===== src/Main/Unlock/Trace.antt =====
-- Rounds of the main loop in which the right PIN is not entered.
use memtype.Base.{
  ℕ, ◌≡◌, inl, inr, refl, ap, sym, subst, ◌∙◌, Bytes, Option, Outcome, done, hang, >>=-eq-done,
  arith,
}
use memtype.State.{
  Device, KeyboardReport, device_locked, start, on_printer, Printer, StrPtr, Ptr, Info,
}
use memtype.Board.{Board}
use memtype.Crd.Load.{crd_load_credential}
use memtype.Ucp.Lock.{ucp_init}
use memtype.Osccal.{osccal_init}
use memtype.Uif.{uif_init}
use memtype.Reset.{reset_state}
use memtype.Main.{Input, main_round, start_up}
use memtype.Main.Unlock.Waiting.{Harmless, Queue, Text, message, first_screen, unused, print-Queue}
use memtype.Main.Unlock.Defs.{EntryMenu, Fixed, Locked, PinEntered}
use memtype.Main.Unlock.Round.{RoundOutcome, main_round-Locked}

module _ (b : Board) where
  -- Rounds from `d0` on, none of them with the right PIN entered: a round returns; or it hangs, and the
  -- watchdog resets the device, which keeps both memories; or the power goes off and on.
  pub data Guesses (d0 : Device) : Device → Type 0 where
    started : Guesses d0 d0
    round :
        {d d' : Device} (i : Input) (r : Option KeyboardReport)
        → Guesses d0 d
        → ¬ (PinEntered b d)
        → main_round b i d ≡ done (r, d')
        → Guesses d0 d'
    watchdog :
        {d d' d'' : Device} (i : Input) (osccal : ℕ)
        → Guesses d0 d
        → ¬ (PinEntered b d)
        → main_round b i d ≡ hang d'
        → start_up b (reset_state d'.flash d'.eeprom osccal) ≡ done d''
        → Guesses d0 d''
    power :
        {d d' : Device} (osccal : ℕ)
        → Guesses d0 d
        → start_up b (reset_state d.flash d.eeprom osccal) ≡ done d'
        → Guesses d0 d'

  pub crd_load_credential-same :
      (c : ℕ) (d d' : Device) → crd_load_credential b c d ≡ done d' → d' ≡ record d { crd = d'.crd }
  unfolding crd_load_credential
  crd_load_credential-same c d d' h = ground arith

  pub done-injective {ℓ κ} :
      {S : Type ℓ} {A : Type κ} {x y : A} → ◌≡◌ {A = Outcome S A} (done x) (done y) → x ≡ y
  done-injective e = cc

  -- The device in which a round ends or spins.
  abbrev final : Outcome Device (Option KeyboardReport × Device) → Device
  final (done (r, d)) = d
  final (hang d) = d

  module _ (flash eeprom : Bytes) where
    -- Memories that agree with `flash` and `eeprom` but for the hash of the PIN.
    abbrev pub SameMemory : Bytes → Bytes → Type 0
    SameMemory f e = (f ≡ flash) × ((j : ℕ) → Fixed b j → e j ≡ eeprom j)

    -- The end of `start_up`.
    abbrev ready : Device → Device
    ready d =
        on_printer (λ p. record p { report_buffer = record (p.report_buffer) { reportid = 1 } })
          (osccal_init b (ucp_init d))

    -- The device when UIF_Init has greeted.
    abbrev greeted : Bytes → Bytes → Device
    greeted f e = uif_init b (reset_state f e 0)

    greeted-Queue : (f e : Bytes) → Queue b flash (greeted f e).printer
    greeted-Queue f e =
        print-Queue b flash (Ptr.flash_at b.uif_init_str) Info.flash (reset_state f e 0).printer
          (message first_screen) (λ j. record { no_callback = refl; source = unused })

    ready-queue : (d : Device) → (ready d).printer.str_buf ≡ d.printer.str_buf
    unfolding osccal_init
    ready-queue d = ground arith

    ready-usi : (d : Device) → (ready d).usi ≡ d.usi
    unfolding osccal_init
    ready-usi d = ground arith

    ready-Locked :
        (f e : Bytes) (d : Device)
        → SameMemory f e
        → d.flash ≡ f
        → d.eeprom ≡ e
        → d.uif.uif_state ≡ start
        → d.ucp.usb_write ≡ 0
        → d.printer ≡ (greeted f e).printer
        → d.usi ≡ (greeted f e).usi
        → Locked b flash eeprom (ready d)
    unfolding osccal_init
    ready-Locked f e d (fl, ee) df de m w pr ut = record {
      state = ground arith;
      no_write = ground arith;
      menu = inl (ground arith);
      waiting = (
        subst (λ (q : ℕ → StrPtr). (j : ℕ) → Harmless b flash (q j))
            (sym (ready-queue d ∙ ap (λ (p : Printer). p.str_buf) pr)) (greeted-Queue f e),
        subst (Text b flash) (sym (ready-usi d ∙ ut)) (omega arith, refl),
      );
      flash_kept = ground (arith, df, fl);
      eeprom_kept = λ j out. ground (arith, de, ap (λ (g : Bytes). g j) de, ee j out);
    }

    -- A start after a reset locks the device.
    start_up-Locked :
        (f e : Bytes) (osccal : ℕ) (d : Device)
        → SameMemory f e
        → start_up b (reset_state f e osccal) ≡ done d
        → Locked b flash eeprom d
    unfolding start_up
    start_up-Locked f e osccal d mem h =
        let (d1, loads, rest) = >>=-eq-done _ _ h in
        let same = crd_load_credential-same 0 _ d1 loads in
        let v =
          ready-Locked f e d1 mem (ap (λ x. x.flash) same) (ap (λ x. x.eeprom) same)
            (ap (λ x. x.uif.uif_state) same) (ap (λ x. x.ucp.usb_write) same)
            (ap (λ x. x.printer) same) (ap (λ x. x.usi) same) in
        subst (Locked b flash eeprom) (done-injective rest) v

    returned-Locked :
        (d : Device) (out : Outcome Device (Option KeyboardReport × Device))
        → ¬ (PinEntered b d)
        → RoundOutcome b flash eeprom d out
        → Locked b flash eeprom (final out)
    returned-Locked d out unentered (inl (r, d', e, v)) = rw e v
    returned-Locked d out unentered (inr (inl (d', e, v))) = rw e v
    returned-Locked d out unentered (inr (inr p)) = absurd (unentered p)

    round-Locked :
        (i : Input) {d : Device} (d' : Device)
        (out : Outcome Device (Option KeyboardReport × Device))
        → Locked b flash eeprom d
        → ¬ (PinEntered b d)
        → main_round b i d ≡ out
        → final out ≡ d'
        → Locked b flash eeprom d'
    round-Locked i {d} d' out v unentered e e' =
        subst (Locked b flash eeprom) (ap final e ∙ e')
          (returned-Locked d (main_round b i d) unentered (main_round-Locked b flash eeprom i d v))

    memory : {d : Device} → Locked b flash eeprom d → SameMemory d.flash d.eeprom
    memory v = (v.flash_kept, v.eeprom_kept)

    Guesses-Locked :
        {d0 d : Device} → Locked b flash eeprom d0 → Guesses d0 d → Locked b flash eeprom d
    Guesses-Locked v0 started = v0
    Guesses-Locked v0 (round {d} {d'} i r g unentered e) =
        round-Locked i d' (done (r, d')) (Guesses-Locked v0 g) unentered e refl
    Guesses-Locked v0 (watchdog {d} {d'} {d''} i osccal g unentered e up) =
        let v = round-Locked i d' (hang d') (Guesses-Locked v0 g) unentered e refl in
        start_up-Locked d'.flash d'.eeprom osccal d'' (memory v) up
    Guesses-Locked v0 (power {d} {d'} osccal g up) =
        start_up-Locked d.flash d.eeprom osccal d' (memory (Guesses-Locked v0 g)) up

  -- Whoever has the device in hands but not the PIN, presses whatever buttons, sends whatever packets
  -- and cuts the power: as long as the right PIN is not entered to its last digit, from its start on the
  -- device stays locked, it shows the first screen or the entry of the PIN, no byte of the flash changes,
  -- none of the EEPROM but those of the PIN's hash and of the oscillator's calibration, and each entry of
  -- the keyboard's queue is free or reads from the ten bytes of `userText` that the entry of the PIN uses
  -- or from one of the three messages of uif.c and usi.c, and does not call back into crd.c.
  pub no_pin_no_access :
      (flash eeprom : Bytes) (osccal : ℕ) {d0 d : Device}
      → start_up b (reset_state flash eeprom osccal) ≡ done d0
      → Guesses d0 d
      → (d.ucp.ucp_state ≡ device_locked)
        × EntryMenu d.uif.uif_state
        × (d.flash ≡ flash)
        × ((j : ℕ) → Fixed b j → d.eeprom j ≡ eeprom j)
        × ((j : ℕ) → Harmless b flash (d.printer.str_buf j))
  no_pin_no_access flash eeprom osccal {d0} up g =
      let v0 = start_up-Locked flash eeprom flash eeprom osccal d0 (refl, λ j out. refl) up in
      let v = Guesses-Locked flash eeprom v0 g in
      (v.state, v.menu, v.flash_kept, v.eeprom_kept, v.waiting.0)
