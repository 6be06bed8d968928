-- ===== src/Errors/Xti.antt =====
-- PowerNet/src/socket/internal.cpp, `__throw_os_err`: the errors of the XTI layer of Open
-- Transport. A constructor is a `case` label without its `k`, `kOT` and `Err`.
use Prim.Native.String.{String}
use power_boot.Prelude.{List, [], ◌∷◌}

pub data XtiErr : Type 0 where
  out_of_memory not_found duplicate_found bad_address bad_option access bad_reference : XtiErr
  no_address out_state bad_sequence sys_error look bad_data buffer_overflow flow no_data : XtiErr
  no_disconnect no_ud_err bad_flag no_release not_supported state_change no_structure_type : XtiErr
  bad_name bad_q_len address_busy ind_out provider_mismatch res_q_len res_address q_full : XtiErr
  protocol bad_sync canceled : XtiErr

-- The name that the message ends in.
unfoldable pub xti_name : XtiErr → String
xti_name out_of_memory = "kOTOutOfMemoryErr"
xti_name not_found = "kOTNotFoundErr"
xti_name duplicate_found = "kOTDuplicateFoundErr"
xti_name bad_address = "kOTBadAddressErr"
xti_name bad_option = "kOTBadOptionErr"
xti_name access = "kOTAccessErr"
xti_name bad_reference = "kOTBadReferenceErr"
xti_name no_address = "kOTNoAddressErr"
xti_name out_state = "kOTOutStateErr"
xti_name bad_sequence = "kOTBadSequenceErr"
xti_name sys_error = "kOTSysErrorErr"
xti_name look = "kOTLookErr"
xti_name bad_data = "kOTBadDataErr"
xti_name buffer_overflow = "kOTBufferOverflowErr"
xti_name flow = "kOTFlowErr"
xti_name no_data = "kOTNoDataErr"
xti_name no_disconnect = "kOTNoDisconnectErr"
xti_name no_ud_err = "kOTNoUDErrErr"
xti_name bad_flag = "kOTBadFlagErr"
xti_name no_release = "kOTNoReleaseErr"
xti_name not_supported = "kOTNotSupportedErr"
xti_name state_change = "kOTStateChangeErr"
xti_name no_structure_type = "kOTNoStructureTypeErr"
xti_name bad_name = "kOTBadNameErr"
xti_name bad_q_len = "kOTBadQLenErr"
xti_name address_busy = "kOTAddressBusyErr"
xti_name ind_out = "kOTIndOutErr"
xti_name provider_mismatch = "kOTProviderMismatchErr"
xti_name res_q_len = "kOTResQLenErr"
xti_name res_address = "kOTResAddressErr"
xti_name q_full = "kOTQFullErr"
xti_name protocol = "kOTProtocolErr"
xti_name bad_sync = "kOTBadSyncErr"
xti_name canceled = "kOTCanceledErr"

abbrev pub xti_errors : List XtiErr
xti_errors =
    out_of_memory ∷ not_found ∷ duplicate_found ∷ bad_address ∷ bad_option ∷ access ∷ bad_reference
    ∷ no_address ∷ out_state ∷ bad_sequence ∷ sys_error ∷ look ∷ bad_data ∷ buffer_overflow ∷ flow
    ∷ no_data ∷ no_disconnect ∷ no_ud_err ∷ bad_flag ∷ no_release ∷ not_supported ∷ state_change
    ∷ no_structure_type ∷ bad_name ∷ bad_q_len ∷ address_busy ∷ ind_out ∷ provider_mismatch
    ∷ res_q_len ∷ res_address ∷ q_full ∷ protocol ∷ bad_sync ∷ canceled ∷ []
