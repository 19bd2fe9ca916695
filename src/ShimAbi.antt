-- ===== src/ShimAbi.antt =====
-- include/shim_abi.h and src/shim_abi.c: the imports that winlift can satisfy, and their lookup.
pub mod Lookup
pub mod Ordinals
use silver_nimbus_otter.Prelude.{
  Bool, List, Option, [], false, if◌then◌else◌, leb, none, some, true, ℕ, ◌&&◌, ◌++◌, ◌+◌, ◌==◌,
  ◌∷◌,
}
use silver_nimbus_otter.Bytes.{text}

pub record ImportEntry : Type 0 where
  pub dll_name : List ℕ
  pub func_name : List ℕ
  pub shim_symbol : List ℕ
  pub is_data : Bool

abbrev pub entry : List ℕ → List ℕ → List ℕ → Bool → ImportEntry
entry dll func symbol data_import = record {
  dll_name = dll;
  func_name = func;
  shim_symbol = symbol;
  is_data = data_import;
}

unfoldable pub kernel32_imports : List ImportEntry
kernel32_imports =
    entry (text "kernel32.dll") (text "DeleteCriticalSection") (text "shim_DeleteCriticalSection")
      false
    ∷ entry (text "kernel32.dll") (text "EnterCriticalSection") (text "shim_EnterCriticalSection")
        false
    ∷ entry (text "kernel32.dll") (text "LeaveCriticalSection") (text "shim_LeaveCriticalSection")
        false
    ∷ entry (text "kernel32.dll") (text "InitializeCriticalSection")
        (text "shim_InitializeCriticalSection") false
    ∷ entry (text "kernel32.dll") (text "FreeLibrary") (text "shim_FreeLibrary") false
    ∷ entry (text "kernel32.dll") (text "GetLastError") (text "shim_GetLastError") false
    ∷ entry (text "kernel32.dll") (text "SetLastError") (text "shim_SetLastError") false
    ∷ entry (text "kernel32.dll") (text "GetModuleHandleA") (text "shim_GetModuleHandleA") false
    ∷ entry (text "kernel32.dll") (text "LoadLibraryA") (text "shim_LoadLibraryA") false
    ∷ entry (text "kernel32.dll") (text "GetProcAddress") (text "shim_GetProcAddress") false
    ∷ entry (text "kernel32.dll") (text "SetUnhandledExceptionFilter")
        (text "shim_SetUnhandledExceptionFilter") false
    ∷ entry (text "kernel32.dll") (text "Sleep") (text "shim_Sleep") false
    ∷ entry (text "kernel32.dll") (text "TlsGetValue") (text "shim_TlsGetValue") false
    ∷ entry (text "kernel32.dll") (text "VirtualProtect") (text "shim_VirtualProtect") false
    ∷ entry (text "kernel32.dll") (text "VirtualQuery") (text "shim_VirtualQuery") false
    ∷ entry (text "kernel32.dll") (text "ExitProcess") (text "shim_ExitProcess") false
    ∷ entry (text "kernel32.dll") (text "GetStdHandle") (text "shim_GetStdHandle") false
    ∷ entry (text "kernel32.dll") (text "CloseHandle") (text "shim_CloseHandle") false
    ∷ entry (text "kernel32.dll") (text "WriteFile") (text "shim_WriteFile") false
    ∷ entry (text "kernel32.dll") (text "ReadFile") (text "shim_ReadFile") false
    ∷ entry (text "kernel32.dll") (text "CreateFileA") (text "shim_CreateFileA") false
    ∷ entry (text "kernel32.dll") (text "GetProcessHeap") (text "shim_GetProcessHeap") false
    ∷ entry (text "kernel32.dll") (text "HeapAlloc") (text "shim_HeapAlloc") false
    ∷ entry (text "kernel32.dll") (text "HeapFree") (text "shim_HeapFree") false
    ∷ entry (text "kernel32.dll") (text "HeapReAlloc") (text "shim_HeapReAlloc") false
    ∷ entry (text "kernel32.dll") (text "GetCommandLineA") (text "shim_GetCommandLineA") false
    ∷ entry (text "kernel32.dll") (text "GetEnvironmentStrings") (text "shim_GetEnvironmentStrings")
        false
    ∷ entry (text "kernel32.dll") (text "GetEnvironmentStringsA")
        (text "shim_GetEnvironmentStrings") false
    ∷ entry (text "kernel32.dll") (text "FreeEnvironmentStringsA")
        (text "shim_FreeEnvironmentStringsA") false
    ∷ entry (text "kernel32.dll") (text "GetStartupInfoA") (text "shim_GetStartupInfoA") false
    ∷ []

unfoldable pub msvcrt_imports : List ImportEntry
msvcrt_imports =
    entry (text "msvcrt.dll") (text "__getmainargs") (text "shim_msvcrt_getmainargs") false
    ∷ entry (text "msvcrt.dll") (text "__initenv") (text "shim_data___initenv") true
    ∷ entry (text "msvcrt.dll") (text "__p__commode") (text "shim_msvcrt_p_commode") false
    ∷ entry (text "msvcrt.dll") (text "__p__fmode") (text "shim_msvcrt_p_fmode") false
    ∷ entry (text "msvcrt.dll") (text "__set_app_type") (text "shim_msvcrt_set_app_type") false
    ∷ entry (text "msvcrt.dll") (text "__setusermatherr") (text "shim_msvcrt_setusermatherr") false
    ∷ entry (text "msvcrt.dll") (text "_amsg_exit") (text "shim_msvcrt_amsg_exit") false
    ∷ entry (text "msvcrt.dll") (text "_cexit") (text "shim_msvcrt_cexit") false
    ∷ entry (text "msvcrt.dll") (text "_initterm") (text "shim_msvcrt_initterm") false
    ∷ entry (text "msvcrt.dll") (text "_iob") (text "shim_iob") true
    ∷ entry (text "msvcrt.dll") (text "_onexit") (text "shim_msvcrt_onexit") false
    ∷ entry (text "msvcrt.dll") (text "abort") (text "shim_msvcrt_abort") false
    ∷ entry (text "msvcrt.dll") (text "calloc") (text "shim_msvcrt_calloc") false
    ∷ entry (text "msvcrt.dll") (text "exit") (text "shim_msvcrt_exit") false
    ∷ entry (text "msvcrt.dll") (text "fprintf") (text "shim_msvcrt_fprintf") false
    ∷ entry (text "msvcrt.dll") (text "free") (text "shim_msvcrt_free") false
    ∷ entry (text "msvcrt.dll") (text "fwrite") (text "shim_msvcrt_fwrite") false
    ∷ entry (text "msvcrt.dll") (text "malloc") (text "shim_msvcrt_malloc") false
    ∷ entry (text "msvcrt.dll") (text "memcpy") (text "shim_msvcrt_memcpy") false
    ∷ entry (text "msvcrt.dll") (text "realloc") (text "shim_msvcrt_realloc") false
    ∷ entry (text "msvcrt.dll") (text "signal") (text "shim_msvcrt_signal") false
    ∷ entry (text "msvcrt.dll") (text "strlen") (text "shim_msvcrt_strlen") false
    ∷ entry (text "msvcrt.dll") (text "strncmp") (text "shim_msvcrt_strncmp") false
    ∷ entry (text "msvcrt.dll") (text "vfprintf") (text "shim_msvcrt_vfprintf") false
    ∷ entry (text "msvcrt.dll") (text "__p__iob") (text "shim_msvcrt_p_iob") false
    ∷ entry (text "msvcrt.dll") (text "__p___initenv") (text "shim_msvcrt_p_initenv") false
    ∷ entry (text "msvcrt.dll") (text "__p__acmdln") (text "shim_msvcrt_p_acmdln") false
    ∷ entry (text "msvcrt.dll") (text "_ismbblead") (text "shim_msvcrt_ismbblead") false
    ∷ entry (text "msvcrt.dll") (text "atexit") (text "shim_msvcrt_atexit") false
    ∷ []

unfoldable pub user32_imports : List ImportEntry
user32_imports =
    entry (text "user32.dll") (text "MessageBoxA") (text "shim_MessageBoxA") false
    ∷ entry (text "user32.dll") (text "RegisterClassA") (text "shim_RegisterClassA") false
    ∷ entry (text "user32.dll") (text "CreateWindowExA") (text "shim_CreateWindowExA") false
    ∷ entry (text "user32.dll") (text "ShowWindow") (text "shim_ShowWindow") false
    ∷ entry (text "user32.dll") (text "UpdateWindow") (text "shim_UpdateWindow") false
    ∷ entry (text "user32.dll") (text "DefWindowProcA") (text "shim_DefWindowProcA") false
    ∷ entry (text "user32.dll") (text "GetMessageA") (text "shim_GetMessageA") false
    ∷ entry (text "user32.dll") (text "TranslateMessage") (text "shim_TranslateMessage") false
    ∷ entry (text "user32.dll") (text "DispatchMessageA") (text "shim_DispatchMessageA") false
    ∷ []

unfoldable pub comctl32_imports : List ImportEntry
comctl32_imports =
    entry (text "COMCTL32.dll") (text "#17") (text "shim_InitCommonControls") false ∷ []

-- `g_shim_imports`
unfoldable pub shim_imports : List ImportEntry
unfolding kernel32_imports msvcrt_imports user32_imports comctl32_imports
shim_imports = kernel32_imports ++ (msvcrt_imports ++ (user32_imports ++ comctl32_imports))

-- `tolower` of the C locale.
abbrev pub tolower : ℕ → ℕ
tolower c = if leb b'A' c && leb c b'Z' then c + 32 else c

-- Both strings without their NUL: the loop ends where one of them ends.
unfoldable pub ci_streq : List ℕ → List ℕ → Bool
ci_streq [] [] = true
ci_streq [] (b ∷ bs) = false
ci_streq (a ∷ as') [] = false
ci_streq (a ∷ as') (b ∷ bs) = tolower a == tolower b && ci_streq as' bs

-- `strcmp(a, b) == 0`
unfoldable pub str_eq : List ℕ → List ℕ → Bool
str_eq [] [] = true
str_eq [] (b ∷ bs) = false
str_eq (a ∷ as') [] = false
str_eq (a ∷ as') (b ∷ bs) = a == b && str_eq as' bs

unfoldable pub find_entry : List ImportEntry → List ℕ → List ℕ → Option ImportEntry
unfolding ci_streq str_eq
find_entry [] dll_name func_name = none
find_entry (e ∷ rest) dll_name func_name =
    if ci_streq e.dll_name dll_name && str_eq e.func_name func_name
    then some e
    else find_entry rest dll_name func_name

unfoldable pub shim_lookup_import : List ℕ → List ℕ → Option ImportEntry
unfolding shim_imports find_entry
shim_lookup_import dll_name func_name = find_entry shim_imports dll_name func_name
