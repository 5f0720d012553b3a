-- ===== src/ExtInfo/Table/Alloc.antt =====
-- The table `ei_pairs` of anders/extinfo.cpp: the entries that allocate an object.
use Prim.Native.String.{String}
use ptranalysis.Common.{List, [], ◌∷◌}
use ptranalysis.ExtInfo.Types.{ExtType, alloc, nostruct_alloc}

unfoldable pub alloc_pairs : List (String × ExtType)
alloc_pairs =
    ("\u{1}fopen64", alloc)
    ∷ ("\u{1}readdir64", alloc)
    ∷ ("\u{1}tmpfile64", alloc)
    ∷ ("BIO_new_socket", alloc)
    ∷ ("FT_Get_Sfnt_Table", alloc)
    ∷ ("FcFontList", alloc)
    ∷ ("FcFontMatch", alloc)
    ∷ ("FcFontRenderPrepare", alloc)
    ∷ ("FcFontSetCreate", alloc)
    ∷ ("FcFontSort", alloc)
    ∷ ("FcInitLoadConfig", alloc)
    ∷ ("FcObjectSetBuild", alloc)
    ∷ ("FcObjectSetCreate", alloc)
    ∷ ("FcPatternBuild", alloc)
    ∷ ("FcPatternCreate", alloc)
    ∷ ("FcPatternDuplicate", alloc)
    ∷ ("SSL_CTX_new", alloc)
    ∷ ("SSL_get_peer_certificate", alloc)
    ∷ ("SSL_new", alloc)
    ∷ ("SSLv23_client_method", alloc)
    ∷ ("SyGetmem", alloc)
    ∷ ("TLSv1_client_method", alloc)
    ∷ ("Void_ExtendCore", alloc)
    ∷ ("XAddExtension", alloc)
    ∷ ("XAllocClassHint", alloc)
    ∷ ("XAllocSizeHints", alloc)
    ∷ ("XAllocStandardColormap", alloc)
    ∷ ("XCreateFontSet", alloc)
    ∷ ("XCreateImage", alloc)
    ∷ ("XCreateGC", alloc)
    ∷ ("XESetCloseDisplay", alloc)
    ∷ ("XGetImage", alloc)
    ∷ ("XGetModifierMapping", alloc)
    ∷ ("XGetMotionEvents", alloc)
    ∷ ("XGetVisualInfo", alloc)
    ∷ ("XLoadQueryFont", alloc)
    ∷ ("XListPixmapFormats", alloc)
    ∷ ("XRenderFindFormat", alloc)
    ∷ ("XRenderFindStandardFormat", alloc)
    ∷ ("XRenderFindVisualFormat", alloc)
    ∷ ("XOpenDisplay", alloc)
    ∷ ("XSetErrorHandler", alloc)
    ∷ ("XSetIOErrorHandler", alloc)
    ∷ ("XShapeGetRectangles", alloc)
    ∷ ("XShmCreateImage", alloc)
    ∷ ("XSynchronize", alloc)
    ∷ ("XcursorImageCreate", alloc)
    ∷ ("XcursorLibraryLoadImages", alloc)
    ∷ ("XcursorShapeLoadImages", alloc)
    ∷ ("XineramaQueryScreens", alloc)
    ∷ ("XkbGetMap", alloc)
    ∷ ("XtAppCreateShell", alloc)
    ∷ ("XtCreateApplicationContext", alloc)
    ∷ ("XtOpenDisplay", alloc)
    ∷ ("alloc", alloc)
    ∷ ("alloc_check", alloc)
    ∷ ("alloc_clear", alloc)
    ∷ ("art_svp_from_vpath", alloc)
    ∷ ("art_svp_vpath_stroke", alloc)
    ∷ ("art_svp_writer_rewind_new", alloc)
    ∷ ("art_svp_writer_rewind_reap", alloc)
    ∷ ("art_vpath_dash", alloc)
    ∷ ("cairo_create", alloc)
    ∷ ("cairo_image_surface_create_for_data", alloc)
    ∷ ("cairo_pattern_create_for_surface", alloc)
    ∷ ("cairo_surface_create_similar", alloc)
    ∷ ("calloc", alloc)
    ∷ ("fopen", alloc)
    ∷ ("fopen64", alloc)
    ∷ ("fopencookie", alloc)
    ∷ ("g_scanner_new", alloc)
    ∷ ("gcry_sexp_nth_mpi", alloc)
    ∷ ("gzdopen", alloc)
    ∷ ("iconv_open", alloc)
    ∷ ("jpeg_alloc_huff_table", alloc)
    ∷ ("jpeg_alloc_quant_table", alloc)
    ∷ ("lalloc", alloc)
    ∷ ("lalloc_clear", alloc)
    ∷ ("malloc", alloc)
    ∷ ("nhalloc", alloc)
    ∷ ("oballoc", alloc)
    ∷ ("pango_cairo_font_map_create_context", alloc)
    ∷ ("pcre_compile", alloc)
    ∷ ("pcre_study", alloc)
    ∷ ("permalloc", alloc)
    ∷ ("png_create_info_struct", alloc)
    ∷ ("png_create_write_struct", alloc)
    ∷ ("popen", alloc)
    ∷ ("pthread_getspecific", alloc)
    ∷ ("readdir", alloc)
    ∷ ("readdir64", alloc)
    ∷ ("safe_calloc", alloc)
    ∷ ("safe_malloc", alloc)
    ∷ ("safecalloc", alloc)
    ∷ ("safemalloc", alloc)
    ∷ ("safexcalloc", alloc)
    ∷ ("safexmalloc", alloc)
    ∷ ("savealloc", alloc)
    ∷ ("setmntent", alloc)
    ∷ ("shmat", alloc)
    ∷ ("signal", alloc)
    ∷ ("sigset", alloc)
    ∷ ("tempnam", alloc)
    ∷ ("tmpfile", alloc)
    ∷ ("tmpfile64", alloc)
    ∷ ("xalloc", alloc)
    ∷ ("xcalloc", alloc)
    ∷ ("xmalloc", alloc)
    ∷ []

unfoldable pub nostruct_alloc_pairs : List (String × ExtType)
nostruct_alloc_pairs =
    ("\u{1}mmap64", nostruct_alloc)
    ∷ ("X509_NAME_oneline", nostruct_alloc)
    ∷ ("X509_verify_cert_error_string", nostruct_alloc)
    ∷ ("XBaseFontNameListOfFontSet", nostruct_alloc)
    ∷ ("XGetAtomName", nostruct_alloc)
    ∷ ("XGetDefault", nostruct_alloc)
    ∷ ("XGetKeyboardMapping", nostruct_alloc)
    ∷ ("XListDepths", nostruct_alloc)
    ∷ ("XListFonts", nostruct_alloc)
    ∷ ("XSetLocaleModifiers", nostruct_alloc)
    ∷ ("XcursorGetTheme", nostruct_alloc)
    ∷ ("__strdup", nostruct_alloc)
    ∷ ("crypt", nostruct_alloc)
    ∷ ("ctime", nostruct_alloc)
    ∷ ("dlerror", nostruct_alloc)
    ∷ ("dlopen", nostruct_alloc)
    ∷ ("gai_strerror", nostruct_alloc)
    ∷ ("gcry_cipher_algo_name", nostruct_alloc)
    ∷ ("gcry_md_algo_name", nostruct_alloc)
    ∷ ("gcry_md_read", nostruct_alloc)
    ∷ ("getenv", nostruct_alloc)
    ∷ ("getlogin", nostruct_alloc)
    ∷ ("getpass", nostruct_alloc)
    ∷ ("gnutls_strerror", nostruct_alloc)
    ∷ ("gpg_strerror", nostruct_alloc)
    ∷ ("gzerror", nostruct_alloc)
    ∷ ("inet_ntoa", nostruct_alloc)
    ∷ ("initscr", nostruct_alloc)
    ∷ ("llvm.stacksave", nostruct_alloc)
    ∷ ("mmap", nostruct_alloc)
    ∷ ("mmap64", nostruct_alloc)
    ∷ ("newwin", nostruct_alloc)
    ∷ ("nl_langinfo", nostruct_alloc)
    ∷ ("opendir", nostruct_alloc)
    ∷ ("sbrk", nostruct_alloc)
    ∷ ("strdup", nostruct_alloc)
    ∷ ("strerror", nostruct_alloc)
    ∷ ("strsignal", nostruct_alloc)
    ∷ ("textdomain", nostruct_alloc)
    ∷ ("tgetstr", nostruct_alloc)
    ∷ ("tigetstr", nostruct_alloc)
    ∷ ("tmpnam", nostruct_alloc)
    ∷ ("ttyname", nostruct_alloc)
    ∷ []
