-- ===== src/Examples/Crates.antt =====
-- Concrete functions that behave as the crates nom and num_derive document.
use smpp.Base.{
  ℕ, ◌*◌, ◌+◌, ◌<◌, ◌≡◌, ◌≢◌, refl, true, Option, none, some, List, [], ◌∷◌, ◌++◌, arith, Bytes,
  length, take, drop, ltb, ◌==◌, if◌then◌else◌, ok, err, panic,
}
use smpp.Nom.{Nom, NomLaws, IResult, nul_free}
use smpp.Common.Error.{SmppError, FromPrimitive, FromPrimitiveLaws, status_of}
use smpp.Common.Error

take_bytes : ℕ → Bytes → IResult Bytes
take_bytes n i = if ltb (length i) n then err tt else ok (drop n i, take n i)

push_front : ℕ → IResult Bytes → IResult Bytes
push_front b (ok (rest, s)) = ok (rest, b ∷ s)
push_front b (err e) = err e
push_front b panic = panic

take_until_nul : Bytes → IResult Bytes
take_until_nul [] = err tt
take_until_nul (b ∷ bs) = if b == 0 then ok (b ∷ bs, []) else push_front b (take_until_nul bs)

be_u8 : Bytes → IResult ℕ
be_u8 [] = err tt
be_u8 (b ∷ rest) = ok (rest, b)

be_u32 : Bytes → IResult ℕ
be_u32 (a ∷ b ∷ c ∷ d ∷ rest) = ok (rest, ((a * 256 + b) * 256 + c) * 256 + d)
be_u32 _ = err tt

pub std_nom : Nom
std_nom = record {
  take_bytes = take_bytes;
  take_until_nul = take_until_nul;
  be_u8 = be_u8;
  be_u32 = be_u32;
}

until_found :
    (s rest : Bytes) → nul_free s ≡ true → take_until_nul (s ++ (0 ∷ rest)) ≡ ok (0 ∷ rest, s)
unfolding take_until_nul push_front
until_found [] rest h = refl
until_found (b ∷ s) rest h = ground (arith, until_found s rest)

until_absent : (i : Bytes) → nul_free i ≡ true → take_until_nul i ≡ err tt
unfolding take_until_nul push_front
until_absent [] h = refl
until_absent (b ∷ s) h = ground (arith, until_absent s)

be_u32_short : (i : Bytes) → length i < 4 → be_u32 i ≡ err tt
unfolding be_u32
be_u32_short [] h = refl
be_u32_short (a ∷ []) h = refl
be_u32_short (a ∷ b ∷ []) h = refl
be_u32_short (a ∷ b ∷ c ∷ []) h = refl
be_u32_short (a ∷ b ∷ c ∷ d ∷ rest) h = absurd (omega arith)

pub std_nom_laws : NomLaws std_nom
unfolding std_nom take_bytes be_u8 be_u32
std_nom_laws = record {
  take_enough = λ n i h. ground arith;
  take_short = λ n i h. ground arith;
  take_until_found = until_found;
  take_until_absent = until_absent;
  be_u8_some = λ b rest. refl;
  be_u8_empty = refl;
  be_u32_some = λ a b c d rest. refl;
  be_u32_short = be_u32_short;
}

errors : List SmppError
errors =
    Error.esme_rok ∷ Error.esme_rinvmsglen ∷ Error.esme_rinvcmdlen ∷ Error.esme_rinvcmdid
    ∷ Error.esme_rinvbndsts ∷ Error.esme_ralybnd ∷ Error.esme_rinvprtflg ∷ Error.esme_rinvregdlvflg
    ∷ Error.esme_rsyserr ∷ Error.esme_rinvsrcadr ∷ Error.esme_rinvdstadr ∷ Error.esme_rinvmsgid
    ∷ Error.esme_rbindfail ∷ Error.esme_rinvpaswd ∷ Error.esme_rinvsysid ∷ Error.esme_rcancelfail
    ∷ Error.esme_rreplacefail ∷ Error.esme_rmsgqful ∷ Error.esme_rinvsertyp
    ∷ Error.esme_rinvnumdests ∷ Error.esme_rinvdlname ∷ Error.esme_rinvdestflag
    ∷ Error.esme_rinvsubrep ∷ Error.esme_rinvesmclass ∷ Error.esme_rcntsubdl
    ∷ Error.esme_rsubmitfail ∷ Error.esme_rinvsrcton ∷ Error.esme_rinvsrcnpi ∷ Error.esme_rinvdstton
    ∷ Error.esme_rinvdstnpi ∷ Error.esme_rinvsystyp ∷ Error.esme_rinvrepflag
    ∷ Error.esme_rinvnummsgs ∷ Error.esme_rthrottled ∷ Error.esme_rinvsched ∷ Error.esme_rinvexpiry
    ∷ Error.esme_rinvdftmsgid ∷ Error.esme_rx_t_appn ∷ Error.esme_rx_p_appn ∷ Error.esme_rx_r_appn
    ∷ Error.esme_rqueryfail ∷ Error.esme_rinvoptparstream ∷ Error.esme_roptparnotallwd
    ∷ Error.esme_rinvparlen ∷ Error.esme_rmissingoptparam ∷ Error.esme_rinvoptparamval
    ∷ Error.esme_rdeliveryfailure ∷ Error.esme_runknownerr ∷ []

lookup : ℕ → List SmppError → Option SmppError
lookup n [] = none
lookup n (e ∷ es) = if status_of e == n then some e else lookup n es

pub std_from_primitive : FromPrimitive
unfolding lookup errors
std_from_primitive = record { from_u32 = λ n. lookup n errors }

lookup-errors : (e : SmppError) → lookup (status_of e) errors ≡ some e
unfolding lookup errors
lookup-errors Error.esme_rok = refl
lookup-errors _ = refl

lookup-none :
    (n : ℕ) (es : List SmppError) → ((e : SmppError) → status_of e ≢ n) → lookup n es ≡ none
unfolding lookup
lookup-none n [] h = refl
lookup-none n (e ∷ es) h = ground (arith, h e, lookup-none n es h)

pub std_from_primitive_laws : FromPrimitiveLaws std_from_primitive
unfolding std_from_primitive
std_from_primitive_laws = record {
  from_u32_of = lookup-errors;
  from_u32_else = λ n h. lookup-none n errors h;
}
