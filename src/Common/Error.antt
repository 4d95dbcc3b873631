-- ===== src/Common/Error.antt =====
-- common/mod.rs, `SmppError`: the command_status values of SMPP 3.4, and how a status read off the
-- wire is mapped onto them.
use smpp.Base.{ℕ, ◌<◌, ◌≡◌, ◌≢◌, refl, arith, Option, none, some}

pub data SmppError : Type 0 where
  esme_rok esme_rinvmsglen esme_rinvcmdlen esme_rinvcmdid esme_rinvbndsts esme_ralybnd : SmppError
  esme_rinvprtflg esme_rinvregdlvflg esme_rsyserr esme_rinvsrcadr esme_rinvdstadr : SmppError
  esme_rinvmsgid esme_rbindfail esme_rinvpaswd esme_rinvsysid esme_rcancelfail : SmppError
  esme_rreplacefail esme_rmsgqful esme_rinvsertyp esme_rinvnumdests esme_rinvdlname : SmppError
  esme_rinvdestflag esme_rinvsubrep esme_rinvesmclass esme_rcntsubdl esme_rsubmitfail : SmppError
  esme_rinvsrcton esme_rinvsrcnpi esme_rinvdstton esme_rinvdstnpi esme_rinvsystyp : SmppError
  esme_rinvrepflag esme_rinvnummsgs esme_rthrottled esme_rinvsched esme_rinvexpiry : SmppError
  esme_rinvdftmsgid esme_rx_t_appn esme_rx_p_appn esme_rx_r_appn esme_rqueryfail : SmppError
  esme_rinvoptparstream esme_roptparnotallwd esme_rinvparlen esme_rmissingoptparam : SmppError
  esme_rinvoptparamval esme_rdeliveryfailure esme_runknownerr : SmppError

-- `error as u32`
abbrev pub status_of : SmppError → ℕ
status_of esme_rok = 0x0
status_of esme_rinvmsglen = 0x1
status_of esme_rinvcmdlen = 0x2
status_of esme_rinvcmdid = 0x3
status_of esme_rinvbndsts = 0x4
status_of esme_ralybnd = 0x5
status_of esme_rinvprtflg = 0x6
status_of esme_rinvregdlvflg = 0x7
status_of esme_rsyserr = 0x8
status_of esme_rinvsrcadr = 0xa
status_of esme_rinvdstadr = 0xb
status_of esme_rinvmsgid = 0xc
status_of esme_rbindfail = 0xd
status_of esme_rinvpaswd = 0xe
status_of esme_rinvsysid = 0xf
status_of esme_rcancelfail = 0x11
status_of esme_rreplacefail = 0x13
status_of esme_rmsgqful = 0x14
status_of esme_rinvsertyp = 0x15
status_of esme_rinvnumdests = 0x33
status_of esme_rinvdlname = 0x34
status_of esme_rinvdestflag = 0x40
status_of esme_rinvsubrep = 0x42
status_of esme_rinvesmclass = 0x43
status_of esme_rcntsubdl = 0x44
status_of esme_rsubmitfail = 0x45
status_of esme_rinvsrcton = 0x48
status_of esme_rinvsrcnpi = 0x49
status_of esme_rinvdstton = 0x50
status_of esme_rinvdstnpi = 0x51
status_of esme_rinvsystyp = 0x53
status_of esme_rinvrepflag = 0x54
status_of esme_rinvnummsgs = 0x55
status_of esme_rthrottled = 0x58
status_of esme_rinvsched = 0x61
status_of esme_rinvexpiry = 0x62
status_of esme_rinvdftmsgid = 0x63
status_of esme_rx_t_appn = 0x64
status_of esme_rx_p_appn = 0x65
status_of esme_rx_r_appn = 0x66
status_of esme_rqueryfail = 0x67
status_of esme_rinvoptparstream = 0xc0
status_of esme_roptparnotallwd = 0xc1
status_of esme_rinvparlen = 0xc2
status_of esme_rmissingoptparam = 0xc3
status_of esme_rinvoptparamval = 0xc4
status_of esme_rdeliveryfailure = 0xfe
status_of esme_runknownerr = 0xff

-- What `#[derive(FromPrimitive)]` (num_derive) generates for `SmppError`: a variant from its number.
pub record FromPrimitive : Type 0 where
  pub from_u32 : ℕ → Option SmppError

pub record FromPrimitiveLaws (derived : FromPrimitive) : Type 0 where
  pub from_u32_of : (e : SmppError) → derived.from_u32 (status_of e) ≡ some e
  pub from_u32_else : (n : ℕ) → ((e : SmppError) → status_of e ≢ n) → derived.from_u32 n ≡ none

-- `SmppError::from_command_status`, less its log line.
unfoldable pub from_command_status : FromPrimitive → ℕ → SmppError
from_command_status derived status = elim (derived.from_u32 status) [
  | some error ↦ error
  | none ↦ esme_runknownerr
]

module _ {derived : FromPrimitive} (laws : FromPrimitiveLaws derived) where
  -- The status of an error is read back as that error.
  pub from_command_status-status_of :
      (e : SmppError) → from_command_status derived (status_of e) ≡ e
  unfolding from_command_status
  from_command_status-status_of e = rw (laws.from_u32_of e, from_command_status)

  -- A status that no variant has is reported as ESME_RUNKNOWNERR.
  pub from_command_status_unknown :
      (n : ℕ)
      → ((e : SmppError) → status_of e ≢ n)
      → from_command_status derived n ≡ esme_runknownerr
  unfolding from_command_status
  from_command_status_unknown n h = rw (laws.from_u32_else n h, from_command_status)

pub status_of-lt : (e : SmppError) → status_of e < 256
status_of-lt esme_rok = omega arith
status_of-lt _ = omega arith

-- ESME_ROK is the only error whose status is 0.
pub status_of-eq_zero : (e : SmppError) → status_of e ≡ 0 → e ≡ esme_rok
status_of-eq_zero esme_rok h = refl
status_of-eq_zero _ h = absurd (omega arith)
