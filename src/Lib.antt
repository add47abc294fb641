-- ===== src/Lib.antt =====
-- SNESoIP: two game consoles exchange the states of their controllers over the network. A device at
-- each console samples the controller, and a server tells the devices each other's addresses.
--
-- Parts and files (paths from the repository's root):
--   CommonInclude  Tools/CommonInclude/src/CommonInclude.c. Ip: IpIsValid (ip_is_valid), _ParseIP
--                  (parse_ip) and StrToIP (str_to_ip); Ip/Spec is the independent description of a
--                  dotted address. Number: StrToUint32 (str_to_uint32) and HexToUint8.
--   Server         Server/src/Server.c, the IP exchange server. Config: _ConfigHandler. State: the
--                  shared data. Accept: main. Conn: _ConnHandler, the thread of one client (enter,
--                  register, receive, leave). Threads: main and the threads interleaved, as a list
--                  of events.
--   ExchangeClient Firmware/src/ExchangeClient.c, the server's client on the device; Exchange
--                  runs it against the messages that Server/Conn produces.
--   Snes           Firmware/src/SNES.c, the controller input thread.
--   Terminal       Firmware/src/Terminal.c, the text service of the device.
--   Rev2           Archive/Rev2/firmware/src, the firmware of the second revision. Network: the
--                  checks of network.c. Cli: execCommand of cli.c (exec_command) over the EEPROM
--                  and, in Cli/Editor, the line that initCLI reads (key).
--                  Snesio: the serial words of snesio.c. Start: main of main.c up to its loop, with
--                  dnsLookup (dns_lookup) of network.c. Loop: the rounds of the loop.
--                  Ascii: Archive/Rev2/snes/ascii/src/main.c, the program on the console that draws a
--                  text; Ascii/Relay runs the loop against it.
--   Rev0           Archive/Rev0-1/firmware/firmware.c (Firmware) and the first server,
--                  Archive/Rev0-1/server/1st-prototype/server.c (Prototype); Exchange runs the
--                  device against the server.
--   Login          Archive/Rev0-1/server/2nd-prototype/src, the login server. Credentials (USER,
--                  PASS), Port (PORT) and Run (HELO, QUIT, the loop) are tcp_server_read of tcp.c,
--                  and Mysql is mysql.c. Watch is an independent description of what a session may
--                  do to the database.
--   Vsnesoip       Archive/Rev2/utils/vsnesoip, a device in software: reports and the keyboard mode,
--                  Joystick (read_joystick), and from login.c the login of init_login (Login; in
--                  Login/Agree it runs against the session of the login server), the password
--                  (Password), the search for a port (Ports), the master's address (Master) and the
--                  configuration (Config).
--   Wifi           Firmware/src/WiFi.c, the hand-over by SmartConfig that app_main waits for, as a
--                  step relation.
--   Common, Cstring  Names, lists, words and bits, and the C library's string functions, written
--                  after the C standard.
--
-- Conventions: a w-bit variable is a native number with its wrap-around written out; `int` is an
-- unbounded integer. A buffer is a list of bytes. What a socket call returns is an argument of the
-- function that models a round of the loop around it, so that every sequence of results is covered.
-- The database of the login server is a record of operations (Database), which Login/Mysql fills
-- from the client library of MySQL, a parameter; so are the keystream of the cipher and the test
-- of the network stack for a packet. `inet_ntop` is a parameter, with its documented behaviour for
-- IPv4 (IsInetNtop) as hypothesis. What `snprintf` prints for a text that the source passes as its
-- format is a parameter too, with the hypothesis that it copies a format without a percent sign
-- (PrintsPlain). A thread of Server.c reads and writes the counter of clients in two steps.
-- Loops over a buffer are structural recursion. The loop of IpIsValid has fuel, since its 8-bit
-- index may go round; 256 rounds are enough for every string shorter than 256 bytes. The
-- search for a port has fuel for one round more than there are ports.
--
-- Not modelled: log lines, delays, the set-up of sockets, pins and peripherals, the signal handler,
-- the threads and the start of the login server, the waits for the network stack,
-- the vendored network stacks, UART, cipher and bootloader, the web server and the hardware.
pub mod Common
pub mod Cstring
pub mod CommonInclude
pub mod Server
pub mod ExchangeClient
pub mod Login
pub mod Snes
pub mod Terminal
pub mod Rev2
pub mod Rev0
pub mod Vsnesoip
pub mod Wifi
