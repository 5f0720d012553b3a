-- ===== src/ExtInfo/Table/Noop.antt =====
-- The table `ei_pairs` of anders/extinfo.cpp: the entries with no effect on pointers.
use Prim.Native.String.{String}
use ptranalysis.Common.{List, [], ◌∷◌}
use ptranalysis.ExtInfo.Types.{ExtType, noop}

unfoldable pub noop_pairs_1 : List (String × ExtType)
noop_pairs_1 =
    ("\u{1}creat64", noop)
    ∷ ("\u{1}fseeko64", noop)
    ∷ ("\u{1}fstat64", noop)
    ∷ ("\u{1}fstatvfs64", noop)
    ∷ ("\u{1}ftello64", noop)
    ∷ ("\u{1}getrlimit64", noop)
    ∷ ("\u{1}lstat64", noop)
    ∷ ("\u{1}open64", noop)
    ∷ ("\u{1}stat64", noop)
    ∷ ("\u{1}statvfs64", noop)
    ∷ ("Gpm_GetEvent", noop)
    ∷ ("Gpm_Open", noop)
    ∷ ("RAND_seed", noop)
    ∷ ("SSL_CTX_free", noop)
    ∷ ("SSL_CTX_set_default_verify_paths", noop)
    ∷ ("SSL_free", noop)
    ∷ ("SSL_get_error", noop)
    ∷ ("SSL_get_fd", noop)
    ∷ ("SSL_pending", noop)
    ∷ ("SSL_read", noop)
    ∷ ("SSL_set_bio", noop)
    ∷ ("SSL_set_connect_state", noop)
    ∷ ("SSL_shutdown", noop)
    ∷ ("SSL_state", noop)
    ∷ ("SSL_write", noop)
    ∷ ("Void_FreeCore", noop)
    ∷ ("X509_STORE_CTX_get_error", noop)
    ∷ ("XAllocColor", noop)
    ∷ ("XCloseDisplay", noop)
    ∷ ("XCopyArea", noop)
    ∷ ("XCreateColormap", noop)
    ∷ ("XCreatePixmap", noop)
    ∷ ("XCreateWindow", noop)
    ∷ ("XDrawPoint", noop)
    ∷ ("XDrawString", noop)
    ∷ ("XDrawText", noop)
    ∷ ("XFillRectangle", noop)
    ∷ ("XFillRectangles", noop)
    ∷ ("XFree", noop)
    ∷ ("XFreeColormap", noop)
    ∷ ("XFreeColors", noop)
    ∷ ("XFreeFont", noop)
    ∷ ("XFreeFontNames", noop)
    ∷ ("XFreeGC", noop)
    ∷ ("XFreePixmap", noop)
    ∷ ("XGetGCValues", noop)
    ∷ ("XGetGeometry", noop)
    ∷ ("XInternAtom", noop)
    ∷ ("XMapWindow", noop)
    ∷ ("XNextEvent", noop)
    ∷ ("XPutImage", noop)
    ∷ ("XQueryColor", noop)
    ∷ ("XResizeWindow", noop)
    ∷ ("XSelectInput", noop)
    ∷ ("XSendEvent", noop)
    ∷ ("XSetBackground", noop)
    ∷ ("XSetClipMask", noop)
    ∷ ("XSetClipOrigin", noop)
    ∷ ("XSetFillStyle", noop)
    ∷ ("XSetFont", noop)
    ∷ ("XSetForeground", noop)
    ∷ ("XSetFunction", noop)
    ∷ ("XSetGraphicsExposures", noop)
    ∷ ("XSetLineAttributes", noop)
    ∷ ("XSetTile", noop)
    ∷ ("XSetWMHints", noop)
    ∷ ("XSetWMNormalHints", noop)
    ∷ ("XSetWindowBackgroundPixmap", noop)
    ∷ ("XStoreName", noop)
    ∷ ("XSync", noop)
    ∷ ("XVisualIDFromVisual", noop)
    ∷ ("XWMGeometry", noop)
    ∷ ("XtAppSetFallbackResources", noop)
    ∷ ("XtCloseDisplay", noop)
    ∷ ("XtDestroyApplicationContext", noop)
    ∷ ("XtDestroyWidget", noop)
    ∷ ("_IO_getc", noop)
    ∷ ("_IO_putc", noop)
    ∷ ("__assert_fail", noop)
    ∷ ("__dn_expand", noop)
    ∷ ("__dn_skipname", noop)
    ∷ ("__res_nclose", noop)
    ∷ ("__res_ninit", noop)
    ∷ ("__res_nmkquery", noop)
    ∷ ("__res_nsend", noop)
    ∷ ("__res_query", noop)
    ∷ ("__res_querydomain", noop)
    ∷ ("__res_search", noop)
    ∷ ("__sigsetjmp", noop)
    ∷ ("_obstack_begin", noop)
    ∷ ("_obstack_memory_used", noop)
    ∷ ("_obstack_newchunk", noop)
    ∷ ("_setjmp", noop)
    ∷ ("accept", noop)
    ∷ ("access", noop)
    ∷ ("asprintf", noop)
    ∷ ("atexit", noop)
    ∷ ("atof", noop)
    ∷ ("atoi", noop)
    ∷ ("atol", noop)
    ∷ ("bind", noop)
    ∷ ("cfgetospeed", noop)
    ∷ ("cfree", noop)
    ∷ ("cfsetispeed", noop)
    ∷ ("cfsetospeed", noop)
    ∷ ("chdir", noop)
    ∷ ("chmod", noop)
    ∷ ("chown", noop)
    ∷ ("chroot", noop)
    ∷ ("clearerr", noop)
    ∷ ("clearok", noop)
    ∷ ("closedir", noop)
    ∷ ("compress2", noop)
    ∷ ("confstr", noop)
    ∷ ("connect", noop)
    ∷ ("crc32", noop)
    ∷ ("creat", noop)
    ∷ ("creat64", noop)
    ∷ ("deflate", noop)
    ∷ ("deflateEnd", noop)
    ∷ ("deflateInit2_", noop)
    ∷ ("deflateReset", noop)
    ∷ ("delwin", noop)
    ∷ ("dladdr", noop)
    ∷ ("dlclose", noop)
    ∷ ("execl", noop)
    ∷ ("execle", noop)
    ∷ ("execlp", noop)
    ∷ ("execv", noop)
    ∷ ("execve", noop)
    ∷ ("execvp", noop)
    ∷ ("fclose", noop)
    ∷ ("feof", noop)
    ∷ ("ferror", noop)
    ∷ ("fflush", noop)
    ∷ ("fgetc", noop)
    ∷ ("fgetpos", noop)
    ∷ ("fileno", noop)
    ∷ ("flockfile", noop)
    ∷ ("fnmatch", noop)
    ∷ ("forkpty", noop)
    ∷ ("fprintf", noop)
    ∷ ("fputc", noop)
    ∷ ("fputs", noop)
    ∷ ("fread", noop)
    ∷ []

unfoldable pub noop_pairs_2 : List (String × ExtType)
noop_pairs_2 =
    ("free", noop)
    ∷ ("free_all_mem", noop)
    ∷ ("freeaddrinfo", noop)
    ∷ ("frexp", noop)
    ∷ ("fscanf", noop)
    ∷ ("fseek", noop)
    ∷ ("fseeko", noop)
    ∷ ("fseeko64", noop)
    ∷ ("fsetpos", noop)
    ∷ ("fstat", noop)
    ∷ ("fstat64", noop)
    ∷ ("fstatfs", noop)
    ∷ ("fstatvfs64", noop)
    ∷ ("ftell", noop)
    ∷ ("ftello", noop)
    ∷ ("ftello64", noop)
    ∷ ("ftok", noop)
    ∷ ("funlockfile", noop)
    ∷ ("fwrite", noop)
    ∷ ("g_scanner_destroy", noop)
    ∷ ("g_scanner_eof", noop)
    ∷ ("g_scanner_get_next_token", noop)
    ∷ ("g_scanner_input_file", noop)
    ∷ ("g_scanner_scope_add_symbol", noop)
    ∷ ("gcry_cipher_close", noop)
    ∷ ("gcry_cipher_ctl", noop)
    ∷ ("gcry_cipher_decrypt", noop)
    ∷ ("gcry_cipher_map_name", noop)
    ∷ ("gcry_cipher_open", noop)
    ∷ ("gcry_md_close", noop)
    ∷ ("gcry_md_ctl", noop)
    ∷ ("gcry_md_get_algo", noop)
    ∷ ("gcry_md_hash_buffer", noop)
    ∷ ("gcry_md_map_name", noop)
    ∷ ("gcry_md_open", noop)
    ∷ ("gcry_md_setkey", noop)
    ∷ ("gcry_md_write", noop)
    ∷ ("gcry_mpi_add", noop)
    ∷ ("gcry_mpi_add_ui", noop)
    ∷ ("gcry_mpi_clear_highbit", noop)
    ∷ ("gcry_mpi_print", noop)
    ∷ ("gcry_mpi_release", noop)
    ∷ ("gcry_sexp_release", noop)
    ∷ ("getaddrinfo", noop)
    ∷ ("getc_unlocked", noop)
    ∷ ("getgroups", noop)
    ∷ ("gethostname", noop)
    ∷ ("getloadavg", noop)
    ∷ ("getopt", noop)
    ∷ ("getopt_long", noop)
    ∷ ("getopt_long_only", noop)
    ∷ ("getpeername", noop)
    ∷ ("getresgid", noop)
    ∷ ("getresuid", noop)
    ∷ ("getrlimit", noop)
    ∷ ("getrlimit64", noop)
    ∷ ("getrusage", noop)
    ∷ ("getsockname", noop)
    ∷ ("getsockopt", noop)
    ∷ ("gettimeofday", noop)
    ∷ ("globfree", noop)
    ∷ ("gnutls_pkcs12_bag_decrypt", noop)
    ∷ ("gnutls_pkcs12_bag_deinit", noop)
    ∷ ("gnutls_pkcs12_bag_get_count", noop)
    ∷ ("gnutls_pkcs12_bag_get_type", noop)
    ∷ ("gnutls_x509_crt_deinit", noop)
    ∷ ("gnutls_x509_crt_get_dn_by_oid", noop)
    ∷ ("gnutls_x509_crt_get_key_id", noop)
    ∷ ("gnutls_x509_privkey_deinit", noop)
    ∷ ("gnutls_x509_privkey_get_key_id", noop)
    ∷ ("gzclose", noop)
    ∷ ("gzeof", noop)
    ∷ ("gzgetc", noop)
    ∷ ("gzread", noop)
    ∷ ("gzseek", noop)
    ∷ ("gztell", noop)
    ∷ ("gzwrite", noop)
    ∷ ("iconv_close", noop)
    ∷ ("inet_addr", noop)
    ∷ ("inet_aton", noop)
    ∷ ("inet_pton", noop)
    ∷ ("inflate", noop)
    ∷ ("inflateEnd", noop)
    ∷ ("inflateInit2_", noop)
    ∷ ("inflateInit_", noop)
    ∷ ("inflateReset", noop)
    ∷ ("initgroups", noop)
    ∷ ("jpeg_CreateCompress", noop)
    ∷ ("jpeg_CreateDecompress", noop)
    ∷ ("jpeg_destroy", noop)
    ∷ ("jpeg_finish_compress", noop)
    ∷ ("jpeg_finish_decompress", noop)
    ∷ ("jpeg_read_header", noop)
    ∷ ("jpeg_read_scanlines", noop)
    ∷ ("jpeg_resync_to_restart", noop)
    ∷ ("jpeg_set_colorspace", noop)
    ∷ ("jpeg_set_defaults", noop)
    ∷ ("jpeg_set_linear_quality", noop)
    ∷ ("jpeg_set_quality", noop)
    ∷ ("jpeg_start_compress", noop)
    ∷ ("jpeg_start_decompress", noop)
    ∷ ("jpeg_write_scanlines", noop)
    ∷ ("keypad", noop)
    ∷ ("lchown", noop)
    ∷ ("link", noop)
    ∷ ("llvm.memset.i32", noop)
    ∷ ("llvm.memset.i64", noop)
    ∷ ("llvm.stackrestore", noop)
    ∷ ("llvm.va_copy", noop)
    ∷ ("llvm.va_end", noop)
    ∷ ("llvm.va_start", noop)
    ∷ ("longjmp", noop)
    ∷ ("lstat", noop)
    ∷ ("lstat64", noop)
    ∷ ("mblen", noop)
    ∷ ("mbrlen", noop)
    ∷ ("mbrtowc", noop)
    ∷ ("mbtowc", noop)
    ∷ ("memcmp", noop)
    ∷ ("mkdir", noop)
    ∷ ("mknod", noop)
    ∷ ("mkfifo", noop)
    ∷ ("mkstemp", noop)
    ∷ ("mkstemp64", noop)
    ∷ ("mktime", noop)
    ∷ ("modf", noop)
    ∷ ("mprotect", noop)
    ∷ ("munmap", noop)
    ∷ ("nanosleep", noop)
    ∷ ("nhfree", noop)
    ∷ ("nodelay", noop)
    ∷ ("obstack_free", noop)
    ∷ ("open", noop)
    ∷ ("open64", noop)
    ∷ ("openlog", noop)
    ∷ ("openpty", noop)
    ∷ ("pathconf", noop)
    ∷ ("pclose", noop)
    ∷ ("perror", noop)
    ∷ ("pipe", noop)
    ∷ ("png_destroy_write_struct", noop)
    ∷ ("png_init_io", noop)
    ∷ ("png_set_bKGD", noop)
    ∷ ("png_set_invert_alpha", noop)
    ∷ ("png_set_invert_mono", noop)
    ∷ []

unfoldable pub noop_pairs_3 : List (String × ExtType)
noop_pairs_3 =
    ("png_write_end", noop)
    ∷ ("png_write_info", noop)
    ∷ ("png_write_rows", noop)
    ∷ ("poll", noop)
    ∷ ("pread64", noop)
    ∷ ("printf", noop)
    ∷ ("pthread_attr_destroy", noop)
    ∷ ("pthread_attr_init", noop)
    ∷ ("pthread_attr_setscope", noop)
    ∷ ("pthread_attr_setstacksize", noop)
    ∷ ("pthread_create", noop)
    ∷ ("pthread_mutex_destroy", noop)
    ∷ ("pthread_mutex_init", noop)
    ∷ ("pthread_mutex_lock", noop)
    ∷ ("pthread_mutex_unlock", noop)
    ∷ ("pthread_mutexattr_destroy", noop)
    ∷ ("pthread_mutexattr_init", noop)
    ∷ ("pthread_mutexattr_settype", noop)
    ∷ ("ptsname", noop)
    ∷ ("putenv", noop)
    ∷ ("puts", noop)
    ∷ ("qsort", noop)
    ∷ ("re_compile_fastmap", noop)
    ∷ ("re_exec", noop)
    ∷ ("re_search", noop)
    ∷ ("read", noop)
    ∷ ("readlink", noop)
    ∷ ("recv", noop)
    ∷ ("recvfrom", noop)
    ∷ ("regcomp", noop)
    ∷ ("regerror", noop)
    ∷ ("remove", noop)
    ∷ ("rename", noop)
    ∷ ("rewind", noop)
    ∷ ("rewinddir", noop)
    ∷ ("rmdir", noop)
    ∷ ("rresvport", noop)
    ∷ ("safe_cfree", noop)
    ∷ ("safe_free", noop)
    ∷ ("safefree", noop)
    ∷ ("safexfree", noop)
    ∷ ("scrollok", noop)
    ∷ ("select", noop)
    ∷ ("sem_destroy", noop)
    ∷ ("sem_init", noop)
    ∷ ("sem_post", noop)
    ∷ ("sem_trywait", noop)
    ∷ ("sem_wait", noop)
    ∷ ("send", noop)
    ∷ ("sendto", noop)
    ∷ ("setbuf", noop)
    ∷ ("setenv", noop)
    ∷ ("setgroups", noop)
    ∷ ("setitimer", noop)
    ∷ ("setrlimit", noop)
    ∷ ("setsockopt", noop)
    ∷ ("setvbuf", noop)
    ∷ ("sigaction", noop)
    ∷ ("sigaddset", noop)
    ∷ ("sigaltstack", noop)
    ∷ ("sigdelset", noop)
    ∷ ("sigemptyset", noop)
    ∷ ("sigfillset", noop)
    ∷ ("sigisemptyset", noop)
    ∷ ("sigismember", noop)
    ∷ ("siglongjmp", noop)
    ∷ ("sigprocmask", noop)
    ∷ ("sigsuspend", noop)
    ∷ ("sm_free", noop)
    ∷ ("snprintf", noop)
    ∷ ("socketpair", noop)
    ∷ ("sprintf", noop)
    ∷ ("sscanf", noop)
    ∷ ("stat", noop)
    ∷ ("stat64", noop)
    ∷ ("statfs", noop)
    ∷ ("statvfs", noop)
    ∷ ("statvfs64", noop)
    ∷ ("strcasecmp", noop)
    ∷ ("strcmp", noop)
    ∷ ("strcoll", noop)
    ∷ ("strcspn", noop)
    ∷ ("strfmon", noop)
    ∷ ("strftime", noop)
    ∷ ("strlen", noop)
    ∷ ("strncasecmp", noop)
    ∷ ("strncmp", noop)
    ∷ ("strspn", noop)
    ∷ ("symlink", noop)
    ∷ ("sysinfo", noop)
    ∷ ("syslog", noop)
    ∷ ("system", noop)
    ∷ ("tcgetattr", noop)
    ∷ ("tcsetattr", noop)
    ∷ ("tgetent", noop)
    ∷ ("tgetflag", noop)
    ∷ ("tgetnum", noop)
    ∷ ("time", noop)
    ∷ ("timegm", noop)
    ∷ ("times", noop)
    ∷ ("tputs", noop)
    ∷ ("truncate", noop)
    ∷ ("uname", noop)
    ∷ ("uncompress", noop)
    ∷ ("ungetc", noop)
    ∷ ("unlink", noop)
    ∷ ("unsetenv", noop)
    ∷ ("utime", noop)
    ∷ ("utimes", noop)
    ∷ ("vasprintf", noop)
    ∷ ("vfprintf", noop)
    ∷ ("vim_free", noop)
    ∷ ("vprintf", noop)
    ∷ ("vsnprintf", noop)
    ∷ ("vsprintf", noop)
    ∷ ("waddch", noop)
    ∷ ("waddnstr", noop)
    ∷ ("wait", noop)
    ∷ ("wait3", noop)
    ∷ ("wait4", noop)
    ∷ ("waitpid", noop)
    ∷ ("wattr_off", noop)
    ∷ ("wattr_on", noop)
    ∷ ("wborder", noop)
    ∷ ("wclrtobot", noop)
    ∷ ("wclrtoeol", noop)
    ∷ ("wcrtomb", noop)
    ∷ ("wctomb", noop)
    ∷ ("wctype", noop)
    ∷ ("werase", noop)
    ∷ ("wgetch", noop)
    ∷ ("wmove", noop)
    ∷ ("wrefresh", noop)
    ∷ ("write", noop)
    ∷ ("wtouchln", noop)
    ∷ ("xfree", noop)
    ∷ []
