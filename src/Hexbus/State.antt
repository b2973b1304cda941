-- ===== src/Hexbus/State.antt =====
-- The object HEXBUS, its buffer, and reading characters from the device.
use dbgbus.Base.{
  ℕ, zero, suc, ◌+◌, Bool, true, false, ◌&&◌, List, leb, ◌==◌, if◌then◌else◌, u64, bit_and, length,
  get_or, set,
}
use dbgbus.Comms
use dbgbus.Comms.{Comms}
use dbgbus.Outcome.{Run, ◌>>=◌, ◌>>◌, pure, modify}
use dbgbus.Hexbus.Link.{Link}

pub record Hexbus : Type 0 where
  pub link : Link
  pub open link use *
  pub total_nread : ℕ
  -- `m_buf != NULL`, and its length.
  pub has_buf : Bool
  pub buflen : ℕ
  -- The global gbl_last_readidle.
  pub last_readidle : Bool
  pub dev : Comms

-- HEXBUS::bufalloc. `-0x3f` is 0xffffffc1 in 32 bits.
unfoldable pub bufalloc : ℕ → Hexbus → Hexbus
bufalloc len h =
    if h.has_buf && leb len h.buflen
    then h
    else record h { buflen = bit_and len 0xffffffc1 + 0x40; has_buf = true }

-- HEXBUS::HEXBUS with init(), which sets neither m_lastaddr nor m_inc nor m_isspace: they have
-- whatever values were there.
unfoldable pub init : ℕ → Bool → Bool → Comms → Hexbus
unfolding bufalloc
init lastaddr inc isspace_seen dev =
    let h : Hexbus = record {
      link = record {
        interrupt_flag = false;
        addr_set = false;
        bus_err = false;
        lastaddr = lastaddr;
        nacks = 0;
        inc = inc;
        isspace_seen = isspace_seen;
        cmd = 0;
      };
      total_nread = 0;
      has_buf = false;
      buflen = 0;
      last_readidle = true;
      dev = dev;
    } in
    bufalloc 64 h

-- A call of the device.
abbrev pub on_dev {κ} : {A : Type κ} → Run Comms A → Run Hexbus A
on_dev m h = let (r, d) = m h.dev in (r, record h { dev = d })

-- A round of the protocol.
abbrev pub on_link {κ} : {A : Type κ} → Run Link A → Run Hexbus A
on_link m h = let (r, l) = m h.link in (r, record h { link = l })

abbrev pub set_link : (Link → Link) → Run Hexbus (Unit {0})
set_link f = modify (λ h. record h { link = f h.link })

abbrev pub is_idle_byte : ℕ → Bool
is_idle_byte c = bit_and c 0x7f == 0x7f

-- The loop of lclreadcode, in place: `left` rounds from index `i`; `sp` and `dp` are the indices of
-- the pointers.
unfoldable pub squeeze : ℕ → ℕ → ℕ → ℕ → List ℕ → List ℕ
squeeze zero i sp dp buf = buf
squeeze (suc left) i sp dp buf =
    let skip = squeeze left (i + 1) (sp + 1) dp buf in
    let copy = squeeze left (i + 1) (sp + 1) (dp + 1) (set buf sp (get_or buf dp 0)) in
    if is_idle_byte (get_or buf i 0) then skip else copy

-- HEXBUS::lclreadcode of up to `n + 1` bytes: the bytes left in the buffer, as many as its result.
unfoldable pub lclreadcode : ℕ → Run Hexbus (List ℕ)
lclreadcode n = do
  buf ← on_dev (Comms.read n)
  modify (λ h. record h { total_nread = u64 (h.total_nread + length buf) })
  pure (squeeze (length buf) 0 0 0 buf)

-- The members of HEXBUS that only look at or clear a flag.
pub poll : Hexbus → Bool
poll h = h.interrupt_flag

pub bus_err : Hexbus → Bool
bus_err h = h.bus_err

unfoldable pub reset_err : Hexbus → Hexbus
reset_err h = record h { link = record h.link { bus_err = false } }

unfoldable pub clear : Hexbus → Hexbus
clear h = record h { link = record h.link { interrupt_flag = false } }

-- HEXBUS::close and HEXBUS::kill.
unfoldable pub close : Run Hexbus (Unit {0})
close = on_dev Comms.virtual_close

-- HEXBUS::~HEXBUS: close the device, free the buffer, and delete the device.
unfoldable pub destroy : Run Hexbus (Unit {0})
destroy = do
  on_dev Comms.virtual_close
  modify (λ h. record h { has_buf = false; dev = Comms.destroy h.dev })
