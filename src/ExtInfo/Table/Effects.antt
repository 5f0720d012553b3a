-- ===== src/ExtInfo/Table/Effects.antt =====
-- The table `ei_pairs` of anders/extinfo.cpp: the entries that return, store or copy a pointer.
use Prim.Native.String.{String}
use ptranalysis.Common.{List, [], ◌∷◌}
use ptranalysis.ExtInfo.Types.{
  ExtType, a0r_new, a11r_new, a1r_a0, a1r_a0r, a1r_new, a2r_a1, a2r_new, a3r_a1r_ns, a4r_a1,
  a4r_new, l_a0, l_a0_a0r_a1r, l_a1, l_a2, l_a8, realloc, stat, stat2,
}

unfoldable pub static_pairs : List (String × ExtType)
static_pairs =
    ("__ctype_b_loc", stat2)
    ∷ ("__ctype_tolower_loc", stat2)
    ∷ ("__ctype_toupper_loc", stat2)
    ∷ ("XKeysymToString", stat)
    ∷ ("__errno_location", stat)
    ∷ ("__h_errno_location", stat)
    ∷ ("__res_state", stat)
    ∷ ("asctime", stat)
    ∷ ("bindtextdomain", stat)
    ∷ ("bind_textdomain_codeset", stat)
    ∷ ("dcgettext", stat)
    ∷ ("dgettext", stat)
    ∷ ("dngettext", stat)
    ∷ ("fdopen", stat)
    ∷ ("gcry_strerror", stat)
    ∷ ("gcry_strsource", stat)
    ∷ ("getgrgid", stat)
    ∷ ("getgrnam", stat)
    ∷ ("gethostbyaddr", stat)
    ∷ ("gethostbyname", stat)
    ∷ ("gethostbyname2", stat)
    ∷ ("getmntent", stat)
    ∷ ("getprotobyname", stat)
    ∷ ("getprotobynumber", stat)
    ∷ ("getpwent", stat)
    ∷ ("getpwnam", stat)
    ∷ ("getpwuid", stat)
    ∷ ("getservbyname", stat)
    ∷ ("getservbyport", stat)
    ∷ ("getspnam", stat)
    ∷ ("gettext", stat)
    ∷ ("gmtime", stat)
    ∷ ("gnu_get_libc_version", stat)
    ∷ ("gnutls_check_version", stat)
    ∷ ("localeconv", stat)
    ∷ ("localtime", stat)
    ∷ ("ngettext", stat)
    ∷ ("pango_cairo_font_map_get_default", stat)
    ∷ ("re_comp", stat)
    ∷ ("setlocale", stat)
    ∷ ("tgoto", stat)
    ∷ ("tparm", stat)
    ∷ ("zError", stat)
    ∷ []

unfoldable pub return_pairs : List (String × ExtType)
return_pairs =
    ("ctermid", realloc)
    ∷ ("getcwd", realloc)
    ∷ ("mem_realloc", realloc)
    ∷ ("realloc", realloc)
    ∷ ("realloc_obj", realloc)
    ∷ ("safe_realloc", realloc)
    ∷ ("saferealloc", realloc)
    ∷ ("safexrealloc", realloc)
    ∷ ("strtok", realloc)
    ∷ ("strtok_r", realloc)
    ∷ ("xrealloc", realloc)
    ∷ ("__rawmemchr", l_a0)
    ∷ ("cairo_surface_reference", l_a0)
    ∷ ("dlsym", l_a0)
    ∷ ("fgets", l_a0)
    ∷ ("jpeg_std_error", l_a0)
    ∷ ("memchr", l_a0)
    ∷ ("memset", l_a0)
    ∷ ("mremap", l_a0)
    ∷ ("stpcpy", l_a0)
    ∷ ("strcat", l_a0)
    ∷ ("strchr", l_a0)
    ∷ ("strcpy", l_a0)
    ∷ ("strerror_r", l_a0)
    ∷ ("strncat", l_a0)
    ∷ ("strncpy", l_a0)
    ∷ ("strpbrk", l_a0)
    ∷ ("strptime", l_a0)
    ∷ ("strrchr", l_a0)
    ∷ ("strstr", l_a0)
    ∷ ("tmpnam_r", l_a0)
    ∷ ("asctime_r", l_a1)
    ∷ ("bsearch", l_a1)
    ∷ ("getmntent_r", l_a1)
    ∷ ("gmtime_r", l_a1)
    ∷ ("gzgets", l_a1)
    ∷ ("localtime_r", l_a1)
    ∷ ("realpath", l_a1)
    ∷ ("\u{1}freopen64", l_a2)
    ∷ ("_XGetAsyncReply", l_a2)
    ∷ ("freopen", l_a2)
    ∷ ("freopen64", l_a2)
    ∷ ("inet_ntop", l_a2)
    ∷ ("XGetSubImage", l_a8)
    ∷ []

unfoldable pub store_pairs : List (String × ExtType)
store_pairs =
    ("llvm.memcpy.i32", l_a0_a0r_a1r)
    ∷ ("llvm.memcpy.i64", l_a0_a0r_a1r)
    ∷ ("llvm.memmove.i32", l_a0_a0r_a1r)
    ∷ ("memccpy", l_a0_a0r_a1r)
    ∷ ("memmove", l_a0_a0r_a1r)
    ∷ ("bcopy", a1r_a0r)
    ∷ ("iconv", a3r_a1r_ns)
    ∷ ("strtod", a1r_a0)
    ∷ ("strtof", a1r_a0)
    ∷ ("strtol", a1r_a0)
    ∷ ("strtold", a1r_a0)
    ∷ ("strtoll", a1r_a0)
    ∷ ("strtoul", a1r_a0)
    ∷ ("readdir_r", a2r_a1)
    ∷ ("getpwnam_r", a4r_a1)
    ∷ ("getpwuid_r", a4r_a1)
    ∷ ("db_create", a0r_new)
    ∷ ("gcry_mpi_scan", a0r_new)
    ∷ ("gcry_pk_decrypt", a0r_new)
    ∷ ("gcry_sexp_build", a0r_new)
    ∷ ("gnutls_pkcs12_bag_init", a0r_new)
    ∷ ("gnutls_pkcs12_init", a0r_new)
    ∷ ("gnutls_x509_crt_init", a0r_new)
    ∷ ("gnutls_x509_privkey_init", a0r_new)
    ∷ ("posix_memalign", a0r_new)
    ∷ ("scandir", a1r_new)
    ∷ ("XGetRGBColormaps", a2r_new)
    ∷ ("XmbTextPropertyToTextList", a2r_new)
    ∷ ("XQueryTree", a4r_new)
    ∷ ("XGetWindowProperty", a11r_new)
    ∷ []
