-- ===== src/Wbregs/Usage.antt =====
-- sw/port.h, and the text that wbregs prints of its use.
use dbgbus.Base.{ℕ, List, ◌++◌}
use dbgbus.Text.Decimal.{dec}
use dbgbus.Text.Strings.{codes}

abbrev pub fpgahost : List ℕ
fpgahost = codes "localhost"

abbrev pub fpgaport : ℕ
fpgaport = 9401

unfoldable pub usage : List ℕ
unfolding dec
usage =
    codes "USAGE: wbregs [-d] address [value]\n"
    ++ codes "\n"
    ++ codes "\tWBREGS stands for Wishbone registers.  It is designed to allow a\n"
    ++ codes "\tuser to peek and poke at registers within a given FPGA design, so\n"
    ++ codes "\tlong as those registers have addresses on the wishbone bus.  The\n"
    ++ codes "\taddress may reference peripherals or memory, depending upon how the\n"
    ++ codes "\tbus is configured.\n"
    ++ codes "\n"
    ++ codes "\t-d\tIf given, specifies the value returned should be in decimal,\n"
    ++ codes "\t\trather than hexadecimal.\n"
    ++ codes "\n"
    ++ codes "\t-n [host]\tAttempt to connect, via TCP/IP, to host named [host].\n"
    ++ codes "\t\tThe default host is '"
    ++ fpgahost
    ++ codes "'\n"
    ++ codes "\n"
    ++ codes "\t-p [port]\tAttempt to connect, via TCP/IP, to port number [port].\n"
    ++ codes "\t\tThe default port is '"
    ++ dec fpgaport
    ++ codes "'\n"
    ++ codes "\n"
    ++ codes "\tAddress is either a 32-bit value with the syntax of strtoul, or a\n"
    ++ codes "\tregister name.  Register names can be found in regdefs.cpp\n"
    ++ codes "\n"
    ++ codes "\tIf a value is given, that value will be written to the indicated\n"
    ++ codes "\taddress, otherwise the result from reading the address will be \n"
    ++ codes "\twritten to the screen.\n"
