-- ===== src/Devbus.antt =====
-- sw/devbus.h: DEVBUS, what a client may ask of a bus, and HEXBUS as such a bus. A buffer is the
-- list of its words.
use dbgbus.Base.{ℕ, Bool, List}
use dbgbus.Outcome.{Run}
use dbgbus.Hexbus.State.{Hexbus}
use dbgbus.Hexbus.State
use dbgbus.Hexbus.Receive
use dbgbus.Hexbus.Transfer

pub record Devbus (B : Type 0) : Type 0 where
  pub kill : Run B (Unit {0})
  pub close : Run B (Unit {0})
  pub writeio : ℕ → ℕ → Run B (Unit {0})
  pub readio : ℕ → Run B ℕ
  pub readi : ℕ → ℕ → Run B (List ℕ)
  pub readz : ℕ → ℕ → Run B (List ℕ)
  pub writei : ℕ → List ℕ → Run B (Unit {0})
  pub writez : ℕ → List ℕ → Run B (Unit {0})
  pub poll : B → Bool
  pub usleep : ℕ → Run B (Unit {0})
  pub wait : Run B (Unit {0})
  pub bus_err : B → Bool
  pub reset_err : B → B
  pub clear : B → B

abbrev pub hexbus : Devbus Hexbus
hexbus = record {
  kill = State.close;
  close = State.close;
  writeio = Transfer.writeio;
  readio = Transfer.readio;
  readi = Transfer.readi;
  readz = Transfer.readz;
  writei = Transfer.writei;
  writez = Transfer.writez;
  poll = State.poll;
  usleep = Receive.usleep;
  wait = Receive.wait;
  bus_err = State.bus_err;
  reset_err = State.reset_err;
  clear = State.clear;
}
